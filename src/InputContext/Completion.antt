-- ===== src/InputContext/Completion.antt =====
-- Each committed text is completed at most once.
use floe_native_apps.Prelude.{
  ℕ, ◌+◌, ◌≤◌, Option, none, some, List, [], ◌∷◌, ◌==◌, if◌then◌else◌, arith,
}
use floe_native_apps.InputContext.{
  Operation, Contexts, CallBack, new, finish, owner_changed, commit, cancel, take, done, register,
  close, Call, owner_changes, commits, cancels, takes, dones, registers, closes, step, run,
}

-- The calls of `completed` that the methods make on the way, for one callback.
abbrev pub calls_of : ℕ → CallBack → ℕ
calls_of i none = 0
calls_of i (some (j, e)) = if j == i then 1 else 0

pub completions : ℕ → Contexts → List Call → ℕ
completions i s [] = 0
completions i s (c ∷ cs) = let (t, call) = step s c in calls_of i call + completions i t cs

-- How often callers hand the callback to `commit`.
abbrev pub commits_of : ℕ → Call → ℕ
commits_of i (commits token text completed clock marked) = if completed == i then 1 else 0
commits_of i _ = 0

pub committed : ℕ → List Call → ℕ
committed i [] = 0
committed i (c ∷ cs) = commits_of i c + committed i cs

abbrev pub holds : ℕ → Option Operation → ℕ
holds i none = 0
holds i (some o) = if o.completed == i then 1 else 0

-- A call completes no more than it finds pending or is given.
step-completions :
    (i : ℕ) (s : Contexts) (c : Call)
    → calls_of i (step s c).1 + holds i (step s c).0.pending ≤ commits_of i c + holds i s.pending
unfolding step owner_changed commit finish cancel take done register close
step-completions i s (owner_changes x g) = ground arith
step-completions i s (commits t x k c m) = ground arith
step-completions i s (cancels t) = ground arith
step-completions i s (takes x n a) = ground arith
step-completions i s (dones x n) = ground arith
step-completions i s (registers x p v t) = ground arith
step-completions i s closes = ground arith

run-completions :
    (i : ℕ) (s : Contexts) (cs : List Call)
    → completions i s cs + holds i (run s cs).pending ≤ committed i cs + holds i s.pending
unfolding completions committed run
run-completions i s [] = omega arith
run-completions i s (c ∷ cs) =
    omega (arith, step-completions i s c, run-completions i (step s c).0 cs)

-- From new contexts, under any calls: a callback is called at most as often as it was committed, and
-- not yet for the commit that is pending.
pub completions-le :
    (i : ℕ) (cs : List Call) → completions i new cs + holds i (run new cs).pending ≤ committed i cs
unfolding new
completions-le i cs = omega (arith, run-completions i new cs)
