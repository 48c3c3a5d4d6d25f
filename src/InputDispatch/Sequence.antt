-- ===== src/InputDispatch/Sequence.antt =====
-- The texts of a connection are delivered in the order of their sequences, each at most once, and none
-- after the connection was refused.
use floe_native_apps.Prelude.{
  ℕ, ◌≤◌, ◌<◌, ◌≡◌, refl, sym, subst, true, false, List, [], ◌∷◌, ◌==◌, if◌then◌else◌, put, nat_key,
  get-put, ==_iff, Bool-cases, inl, inr, arith,
}
use floe_native_apps.InputOrder.{
  Owner, InputError, context_error, delivery_timeout, delivery_failed, Delivery, State,
}
use floe_native_apps.InputOrder as Order
use floe_native_apps.InputDispatch.{Connection, Host, World, state_of, available}
use floe_native_apps.InputDispatch.Calls.{Dispatch, Call, run, new}
use floe_native_apps.InputDispatch.Keeps.{Keeps, keeps_run}

-- The sequences of a connection in a list of deliveries are at most n, or below it.
abbrev Within : Owner → ℕ → List (Owner × ℕ) → Type 0
Within o n [] = Unit
Within o n ((p, m) ∷ xs) = (p ≡ o → m ≤ n) × Within o n xs

abbrev pub Beneath : Owner → ℕ → List (Owner × ℕ) → Type 0
Beneath o n [] = Unit
Beneath o n ((p, m) ∷ xs) = (p ≡ o → m < n) × Beneath o n xs

-- The latest first, every sequence is greater than those that the connection delivered before.
abbrev pub Increasing : List (Owner × ℕ) → Type 0
Increasing [] = Unit
Increasing ((o, n) ∷ xs) = Beneath o n xs × Increasing xs

Within-le : (o : Owner) (n m : ℕ) (xs : List (Owner × ℕ)) → n ≤ m → Within o n xs → Within o m xs
Within-le o n m [] l h = tt
Within-le o n m ((p, i) ∷ xs) l h =
    ((λ e. let j = h.0 e in omega (arith, j, l)), Within-le o n m xs l h.1)

Within-lt : (o : Owner) (n m : ℕ) (xs : List (Owner × ℕ)) → n < m → Within o n xs → Beneath o m xs
Within-lt o n m [] l h = tt
Within-lt o n m ((p, i) ∷ xs) l h =
    ((λ e. let j = h.0 e in omega (arith, j, l)), Within-lt o n m xs l h.1)

record IsOrdered {H : Type 0} (w : World H) : Type 0 where
  increasing : Increasing w.delivered
  bounded : (o : Owner) → Within o (state_of o w).sequence w.delivered

state_of-put :
    {H : Type 0} (o p : Owner) (c : Connection) (w : World H)
    → state_of p (record w { connections = put o c w.connections })
      ≡ (if o == p then c else state_of p w)
state_of-put o p c w = elim (Bool-cases (o == p)) [
  | inl e ↦ simp (get-put o p c w.connections, e) refl
  | inr e ↦ simp (get-put o p c w.connections, e) refl
]

sequence-le :
    {H : Type 0} (o p : Owner) (c : Connection) (w : World H)
    → (state_of o w).sequence ≤ c.sequence
    → (state_of p w).sequence
      ≤ (state_of p (record w { connections = put o c w.connections })).sequence
sequence-le o p c w l = ground (arith, state_of-put o p c w, ==_iff o p)

bounded-put :
    {H : Type 0} (o : Owner) (c : Connection) (w : World H)
    → (state_of o w).sequence ≤ c.sequence
    → IsOrdered w
    → IsOrdered (record w { connections = put o c w.connections })
bounded-put o c w l h = record {
  increasing = h.increasing;
  bounded = λ p. Within-le p _ _ w.delivered (sequence-le o p c w l) (h.bounded p);
}

module _ {H : Type 0} (host : Host H) where
  keeps-IsOrdered : Keeps host IsOrdered
  keeps-IsOrdered = record {
    hosts = λ w x h. record { increasing = h.increasing; bounded = h.bounded };
    fails = λ o w h. bounded-put o (record (state_of o w) { failed = true }) w (omega arith) h;
    moves = λ o n w a l h.
        bounded-put o (record (state_of o w) { sequence = n }) w (omega (arith, l)) h;
    gives = λ o n w a l h.
        let c : Connection = record (state_of o w) { sequence = n } in
        let t = bounded-put o c w (omega (arith, l)) h in
        record {
          increasing = (Within-lt o _ n w.delivered l (h.bounded o), h.increasing);
          bounded = λ p. ((λ e. ground (arith, state_of-put o p c w, ==_iff o p, e)), t.bounded p);
        };
  }

  -- From a new dispatch, over any server and adapters, after any calls, the texts of a connection were
  -- handed to adapters in the order of their sequences, which strictly increase: none twice.
  pub run-Increasing :
      (x : H) (cs : List (Call H)) → Increasing (run host (new x) cs).world.delivered
  unfolding new Order.new
  run-Increasing x cs =
      (keeps_run host IsOrdered keeps-IsOrdered (new x) cs
        (record { increasing = tt; bounded = λ o. tt })).increasing

-- The sequences of the texts of a connection that were handed to an adapter.
unfoldable pub delivered_of : Owner → List (Owner × ℕ) → List ℕ
delivered_of o [] = []
delivered_of o ((p, n) ∷ xs) = let rest = delivered_of o xs in if p == o then n ∷ rest else rest

-- The connection has failed, and these are its texts.
record HasFailed {H : Type 0} (o : Owner) (xs : List ℕ) (w : World H) : Type 0 where
  failed : (state_of o w).failed ≡ true
  texts : delivered_of o w.delivered ≡ xs

module _ {H : Type 0} (host : Host H) (o : Owner) (xs : List ℕ) where
  failed_other :
      (p : Owner) (w : World H) → available host p w ≡ true → HasFailed o xs w → (p == o) ≡ false
  unfolding available
  failed_other p w a h = elim (Bool-cases (p == o)) [
    | inl e ↦
        let same : p ≡ o = (==_iff p o).0 e in
        let q : (state_of p w).failed ≡ true =
          subst (λ i. (state_of i w).failed ≡ true) (sym same) h.failed in
        ground (arith, a, q)
    | inr e ↦ e
  ]

  keeps-HasFailed : Keeps host (HasFailed o xs)
  unfolding delivered_of
  keeps-HasFailed = record {
    hosts = λ w x h. record { failed = h.failed; texts = h.texts };
    fails = λ p w h. record {
      failed =
          ground (arith, state_of-put p o (record (state_of p w) { failed = true }) w, h.failed);
      texts = h.texts;
    };
    moves = λ p n w a l h. record {
      failed = ground (
        arith,
        state_of-put p o (record (state_of p w) { sequence = n }) w,
        h.failed,
        failed_other p w a h,
      );
      texts = h.texts;
    };
    gives = λ p n w a l h. record {
      failed = ground (
        arith,
        state_of-put p o (record (state_of p w) { sequence = n }) w,
        h.failed,
        failed_other p w a h,
      );
      texts = simp (failed_other p w a h) h.texts;
    };
  }

-- A connection that was refused stays refused, over any server and adapters and under any calls, and
-- no further text of it is handed to an adapter.
pub run-failed :
    {H : Type 0} (host : Host H) (o : Owner) (s : Dispatch host) (cs : List (Call H))
    → (state_of o s.world).failed ≡ true
    → ((state_of o (run host s cs).world).failed ≡ true)
      × (delivered_of o (run host s cs).world.delivered ≡ delivered_of o s.world.delivered)
run-failed host o s cs e =
    let h =
      keeps_run host (HasFailed o (delivered_of o s.world.delivered))
        (keeps-HasFailed host o (delivered_of o s.world.delivered)) s cs
        (record { failed = e; texts = refl }) in
    (h.failed, h.texts)
