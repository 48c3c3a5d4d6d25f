-- ===== src/DesktopNative/Channel/Flush.antt =====
-- What the native channel is given to send is written, as long as the socket takes some of it.
use floe_native_apps.Prelude.{
  ℕ, ◌-◌, ◌≤◌, ◌≡◌, refl, ◌∙◌, min, Bool, true, false, List, [], ◌∷◌, if◌then◌else◌, length,
  length-drop, arith, Bool-cases, inl, inr, All,
}
use floe_native_apps.DesktopNative.Channel.{Channel, takes, write, write_in, is_empty}

-- The socket is writable again and again, and takes so many bytes.
unfoldable pub writes : {W : Type 0} → List ℕ → Channel W → Channel W
writes [] c = c
writes (n ∷ ns) c = writes ns (write (takes n) c)

-- Nothing waits, and the channel is as it was otherwise.
pub record IsFlushed {W : Type 0} (c d : Channel W) : Type 0 where
  pub output : d.output ≡ []
  pub closed : d.closed ≡ c.closed
  pub input : d.input ≡ c.input
  pub reports : d.reports ≡ c.reports

empty-length :
    (xs : List ℕ) (b : Bool) → is_empty xs ≡ b → if b then length xs ≡ 0 else (1 ≤ length xs)
unfolding is_empty
empty-length [] true e = refl
empty-length [] false e = cc
empty-length (x ∷ xs) true e = cc
empty-length (x ∷ xs) false e = omega arith

write-less :
    {W : Type 0} (n : ℕ) (c : Channel W)
    → 1 ≤ n
    → c.closed ≡ false
    → (length (write (takes n) c).output ≤ length c.output - 1)
      × ((write (takes n) c).closed ≡ c.closed)
      × ((write (takes n) c).input ≡ c.input)
      × ((write (takes n) c).reports ≡ c.reports)
unfolding write write_in is_empty
write-less n c l e =
    let count = min n (min 16384 (length c.output)) in
    elim (Bool-cases (is_empty c.output)) [
      | inl m ↦ let z = empty-length c.output true m in ground (arith, e, m, z)
      | inr m ↦
          let z = empty-length c.output false m in
          ground (arith, e, l, m, z, length-drop count c.output)
    ]

nil-length : (xs : List ℕ) → length xs ≤ 0 → xs ≡ []
nil-length [] l = refl
nil-length (x ∷ xs) l = absurd (omega (arith, l))

-- On an open channel, as many writes as bytes wait leave nothing to be written, if the socket takes at
-- least one byte each time; the channel stays open, and nothing else of it changes.
pub writes-IsFlushed :
    {W : Type 0} (ns : List ℕ) (c : Channel W)
    → c.closed ≡ false
    → All (λ n. 1 ≤ n) ns
    → length c.output ≤ length ns
    → IsFlushed c (writes ns c)
unfolding writes
writes-IsFlushed [] c e a l = record {
  output = nil-length c.output l;
  closed = refl;
  input = refl;
  reports = refl;
}
writes-IsFlushed (n ∷ ns) c e a l =
    let (less, same, kept, told) = write-less n c a.0 e in
    let h = writes-IsFlushed ns (write (takes n) c) (same ∙ e) a.1 (omega (arith, less, l)) in
    record {
      output = h.output;
      closed = h.closed ∙ same;
      input = h.input ∙ kept;
      reports = h.reports ∙ told;
    }
