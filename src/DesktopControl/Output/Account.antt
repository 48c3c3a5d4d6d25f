-- ===== src/DesktopControl/Output/Account.antt =====
-- The counters of a peer's output are what its queue holds, and they are bounded.
use floe_native_apps.Prelude.{
  ℕ, ◌+◌, ◌-◌, ◌*◌, ◌≤◌, ◌<◌, ◌≡◌, refl, sym, ap, ◌⊎◌, inl, inr, Bool, true, false, not, ◌&&◌, ◌||◌,
  Option, none, some, List, [], ◌∷◌, ◌++◌, leb, ltb, if◌then◌else◌, length, All, arith, subst,
  Option-cases, Bool-cases, length-append,
}
use floe_native_apps.DesktopControl.Reader.{Bytes, pack, encode_message}
use floe_native_apps.DesktopControl.Output.{
  max_output, max_output_records, max_frame, max_cursor, Completed, nothing, frame, cursor, Entry,
  Peer, shut, append, send_in, send, with_frame, send_frame, with_cursor, send_cursor, after,
}

abbrev pub total : List Entry → ℕ
total [] = 0
total (e ∷ es) = length e.bytes + total es

abbrev pub control : List Entry → ℕ
control [] = 0
control (e ∷ es) = (if e.payload then 0 else length e.bytes) + control es

abbrev is_frame : Completed → ℕ
is_frame frame = 1
is_frame _ = 0

abbrev is_cursor : Completed → ℕ
is_cursor cursor = 1
is_cursor _ = 0

abbrev pub frames : List Entry → ℕ
frames [] = 0
frames (e ∷ es) = is_frame e.completed + frames es

abbrev pub cursors : List Entry → ℕ
cursors [] = 0
cursors (e ∷ es) = is_cursor e.completed + cursors es

abbrev pub bit : Bool → ℕ
bit true = 1
bit false = 0

-- A payload is the pixels of a frame or of a cursor.
abbrev pub IsFitting : Entry → Type 0
IsFitting e =
    e.payload ≡ true
    → length e.bytes ≤ is_frame e.completed * max_frame + is_cursor e.completed * max_cursor

-- The state of an open peer: the counters, the flags, the sizes of the pixels, and the bounds on
-- control records.
pub record IsAccounted (p : Peer) : Type 0 where
  pub buffered : p.buffered ≡ total p.output
  pub control_buffered : p.control_buffered ≡ control p.output
  pub frame_pending : frames p.output ≡ bit p.frame_pending
  pub cursor_pending : cursors p.output ≡ bit p.cursor_pending
  pub fitting : All IsFitting p.output
  pub control_bound : p.control_buffered ≤ max_output + 5
  pub records : length p.output ≤ max_output_records + 2

total-append : (xs ys : List Entry) → total (xs ++ ys) ≡ total xs + total ys
total-append [] ys = omega arith
total-append (x ∷ xs) ys = omega (arith, total-append xs ys)

control-append : (xs ys : List Entry) → control (xs ++ ys) ≡ control xs + control ys
control-append [] ys = omega arith
control-append (x ∷ xs) ys = omega (arith, control-append xs ys)

frames-append : (xs ys : List Entry) → frames (xs ++ ys) ≡ frames xs + frames ys
frames-append [] ys = omega arith
frames-append (x ∷ xs) ys = omega (arith, frames-append xs ys)

cursors-append : (xs ys : List Entry) → cursors (xs ++ ys) ≡ cursors xs + cursors ys
cursors-append [] ys = omega arith
cursors-append (x ∷ xs) ys = omega (arith, cursors-append xs ys)

IsFitting-append :
    (xs ys : List Entry) → All IsFitting xs → All IsFitting ys → All IsFitting (xs ++ ys)
IsFitting-append [] ys a b = b
IsFitting-append (x ∷ xs) ys a b = (a.0, IsFitting-append xs ys a.1 b)

pub total_bound :
    (xs : List Entry)
    → All IsFitting xs
    → total xs ≤ control xs + frames xs * max_frame + cursors xs * max_cursor
total_bound [] a = omega arith
total_bound (x ∷ xs) a = elim (Bool-cases x.payload) [
  | inl e ↦ rw e (omega (arith, a.0 e, total_bound xs a.1))
  | inr e ↦ rw e (omega (arith, total_bound xs a.1))
]

-- The peer with one more entry, and with new flags.
grown :
    (p : Peer) (e : Entry) (q : Peer)
    → IsAccounted p
    → IsFitting e
    → q.output ≡ p.output ++ e ∷ []
    → q.buffered ≡ p.buffered + length e.bytes
    → q.control_buffered ≡ p.control_buffered + (if e.payload then 0 else length e.bytes)
    → q.control_buffered ≤ max_output + 5
    → length p.output < max_output_records + 2
    → bit q.frame_pending ≡ bit p.frame_pending + is_frame e.completed
    → bit q.cursor_pending ≡ bit p.cursor_pending + is_cursor e.completed
    → IsAccounted q
grown p e q h fit out b k kb l fp cp = record {
  buffered = omega (arith, ap total out, total-append p.output (e ∷ []), h.buffered, b);
  control_buffered =
      omega (arith, ap control out, control-append p.output (e ∷ []), h.control_buffered, k);
  frame_pending =
      omega (arith, ap frames out, frames-append p.output (e ∷ []), h.frame_pending, fp);
  cursor_pending =
      omega (arith, ap cursors out, cursors-append p.output (e ∷ []), h.cursor_pending, cp);
  fitting =
      subst (λ x. All IsFitting x) (sym out)
        (IsFitting-append p.output (e ∷ []) h.fitting (fit, tt));
  control_bound = kb;
  records = omega (arith, ap length out, length-append p.output (e ∷ []), l);
}

pub shut-IsAccounted : (p : Peer) → IsAccounted p → IsAccounted (shut p)
shut-IsAccounted p h = elim (Bool-cases p.closed) [
  | inl e ↦ simp e h
  | inr e ↦ simp e (record {
    buffered = refl;
    control_buffered = refl;
    frame_pending = refl;
    cursor_pending = refl;
    fitting = tt;
    control_bound = omega arith;
    records = omega arith;
  })
]

-- How `send` ends: with the peer as it was, closed, or with the record in the queue.
send_cases :
    (body : Bytes) (c : Completed) (p : Peer)
    → (send body c p ≡ (false, p))
      ⊎ (send body c p ≡ (false, shut p))
      ⊎ ((bs : Bytes) × (send body c p ≡ (true, append bs false c p))
          × (p.control_buffered + length bs ≤ max_output)
          × (length p.output < max_output_records))
unfolding send send_in
send_cases body c p = elim (Bool-cases (p.closed || not p.authenticated)) [
  | inl e ↦ inl (simp e)
  | inr e ↦ elim (Option-cases (encode_message body (max_output - 5))) [
    | inl n ↦ inr (inl (simp (e, n)))
    | inr (bs, n) ↦
        elim (Bool-cases (
          ltb max_output (p.control_buffered + length bs)
          || leb max_output_records (length p.output))) [
            | inl t ↦ inr (inl (simp (e, n, t)))
            | inr t ↦ inr (inr (bs, simp (e, n, t), ground arith, ground arith))
          ]
  ]
]

not_payload : (e : Entry) → e.payload ≡ false → IsFitting e
not_payload e h k = cc

append-IsAccounted :
    (bs : Bytes) (p : Peer)
    → IsAccounted p
    → p.control_buffered + length bs ≤ max_output + 5
    → length p.output < max_output_records + 2
    → IsAccounted (append bs false nothing p)
unfolding append
append-IsAccounted bs p h k l =
    let e : Entry = record { bytes = bs; payload = false; completed = nothing } in
    grown p e (append bs false nothing p) h (not_payload e refl) refl refl refl k l (omega arith)
      (omega arith)

with_frame-IsAccounted :
    (pixels : Bytes) (p : Peer)
    → IsAccounted p
    → p.frame_pending ≡ false
    → length pixels ≤ max_frame
    → p.control_buffered ≤ max_output
    → length p.output ≤ max_output_records
    → IsAccounted (with_frame pixels (true, p)).1
unfolding with_frame append pack
with_frame-IsAccounted pixels p h f l k n =
    let header = 2 ∷ pack (length pixels) in
    let q = append header false nothing p in
    let e : Entry = record { bytes = pixels; payload = true; completed = frame } in
    grown q e (with_frame pixels (true, p)).1
      (append-IsAccounted header p h (omega (arith, k)) (omega (arith, n))) (λ x. omega (arith, l))
      refl refl (omega arith) (omega (arith, k))
      (omega (
        arith,
        n,
        length-append p.output
            (record { bytes = header; payload = false; completed = nothing } ∷ []),
      ))
      (simp f refl) (omega arith)

with_cursor-IsAccounted :
    (pixels : Bytes) (p : Peer)
    → IsAccounted p
    → p.cursor_pending ≡ false
    → length pixels ≤ max_cursor
    → p.control_buffered ≤ max_output
    → length p.output ≤ max_output_records
    → IsAccounted (with_cursor (some pixels) (true, p)).1
unfolding with_cursor append pack
with_cursor-IsAccounted pixels p h f l k n =
    let header = 3 ∷ pack (length pixels) in
    let q = append header false nothing p in
    let e : Entry = record { bytes = pixels; payload = true; completed = cursor } in
    grown q e (with_cursor (some pixels) (true, p)).1
      (append-IsAccounted header p h (omega (arith, k)) (omega (arith, n))) (λ x. omega (arith, l))
      refl refl (omega arith) (omega (arith, k))
      (omega (
        arith,
        n,
        length-append p.output
            (record { bytes = header; payload = false; completed = nothing } ∷ []),
      ))
      (omega arith) (simp f refl)

hidden_cursor-IsAccounted :
    (bs : Bytes) (p : Peer)
    → IsAccounted p
    → p.cursor_pending ≡ false
    → p.control_buffered + length bs ≤ max_output
    → length p.output < max_output_records
    → IsAccounted (with_cursor none (true, append bs false cursor p)).1
unfolding with_cursor append
hidden_cursor-IsAccounted bs p h f k n =
    let e : Entry = record { bytes = bs; payload = false; completed = cursor } in
    grown p e (with_cursor none (true, append bs false cursor p)).1 h (not_payload e refl) refl refl
      refl (omega (arith, k)) (omega (arith, n)) (omega arith) (simp f refl)

sent_records :
    (bs : Bytes) (p : Peer)
    → length p.output < max_output_records
    → length (append bs false nothing p).output ≤ max_output_records
unfolding append
sent_records bs p n = omega (
  arith,
  n,
  length-append p.output (record { bytes = bs; payload = false; completed = nothing } ∷ []),
)

pub send-IsAccounted :
    (body : Bytes) (p : Peer) → IsAccounted p → IsAccounted (send body nothing p).1
send-IsAccounted body p h = elim (send_cases body nothing p) [
  | inl e ↦ rw e h
  | inr (inl e) ↦ rw e (shut-IsAccounted p h)
  | inr (inr (bs, e, k, n)) ↦ rw e (append-IsAccounted bs p h (omega (arith, k)) (omega (arith, n)))
]

pub send_frame-IsAccounted :
    (body pixels : Bytes) (p : Peer)
    → IsAccounted p
    → IsAccounted (after p (send_frame body pixels p))
unfolding send_frame
send_frame-IsAccounted body pixels p h =
    elim (Bool-cases (p.closed || not p.authenticated || p.frame_pending)) [
      | inl e ↦ simp e h
      | inr e ↦ elim (Bool-cases (not (ltb 0 (length pixels) && leb (length pixels) max_frame))) [
        | inl t ↦ simp (e, t) h
        | inr t ↦ elim (send_cases body nothing p) [
          | inl s ↦ simp (e, t, s, with_frame) h
          | inr (inl s) ↦ simp (e, t, s, with_frame) (shut-IsAccounted p h)
          | inr (inr (bs, s, k, n)) ↦
              let q = append bs false nothing p in
              simp (e, t, s)
                (with_frame-IsAccounted pixels q
                  (append-IsAccounted bs p h (omega (arith, k)) (omega (arith, n))) (ground arith)
                  (ground arith) k (sent_records bs p n))
        ]
      ]
    ]

pub send_cursor-IsAccounted :
    (body : Bytes) (pixels : Option Bytes) (p : Peer)
    → IsAccounted p
    → IsAccounted (after p (send_cursor body pixels p))
unfolding send_cursor
send_cursor-IsAccounted body none p h =
    elim (Bool-cases (p.closed || not p.authenticated || p.cursor_pending)) [
      | inl e ↦ simp e h
      | inr e ↦ elim (send_cases body cursor p) [
        | inl s ↦ simp (e, s, with_cursor) h
        | inr (inl s) ↦ simp (e, s, with_cursor) (shut-IsAccounted p h)
        | inr (inr (bs, s, k, n)) ↦
            simp (e, s) (hidden_cursor-IsAccounted bs p h (ground arith) k n)
      ]
    ]
send_cursor-IsAccounted body (some pixels) p h =
    elim (Bool-cases (p.closed || not p.authenticated || p.cursor_pending)) [
      | inl e ↦ simp e h
      | inr e ↦ elim (Bool-cases (not (ltb 0 (length pixels) && leb (length pixels) max_cursor))) [
        | inl t ↦ simp (e, t) h
        | inr t ↦ elim (send_cases body nothing p) [
          | inl s ↦ simp (e, t, s, with_cursor) h
          | inr (inl s) ↦ simp (e, t, s, with_cursor) (shut-IsAccounted p h)
          | inr (inr (bs, s, k, n)) ↦
              simp (e, t, s)
                (with_cursor-IsAccounted pixels (append bs false nothing p)
                  (append-IsAccounted bs p h (omega (arith, k)) (omega (arith, n))) (ground arith)
                  (ground arith) k (sent_records bs p n))
        ]
      ]
    ]
