-- ===== src/DesktopControl/Transfers.antt =====
-- The theorems on the reader at a request that arrives in two parts, and those on the output at a frame
-- and a cursor of which the socket takes a part.
use floe_native_apps.Prelude.{ℕ, ◌+◌, ◌≤◌, ◌≡◌, ◌≢◌, refl, true, false, none, some, List, [], ◌∷◌}
use floe_native_apps.Python.Int.{pos}
use floe_native_apps.Python.Text.{codes}
use floe_native_apps.Python.Value.{int, text, object, Fields, end, field}
use floe_native_apps.DesktopControl.Reader.{Bytes, App, Reader, encode_message, pack, message, read}
use floe_native_apps.DesktopControl.Reader.Frames.{read-encode_message}
use floe_native_apps.DesktopControl.Reader.Chunks.{read-append}
use floe_native_apps.DesktopControl.Reader.Room.{HasRoom, read-HasRoom}
use floe_native_apps.DesktopControl.Output.{
  Call, authenticates, sends, sends_frame, sends_cursor, writes, takes, blocks, new, run, write,
  max_output, max_frame, max_cursor,
}
use floe_native_apps.DesktopControl.Output.Account.{IsAccounted}
use floe_native_apps.DesktopControl.Output.Drain.{run-IsAccounted, buffered-le}
use floe_native_apps.DesktopControl.Output.Stream.{Keeps, write-Keeps}

abbrev ping : Fields
ping = field (codes "id") (int (pos 1)) (field (codes "method") (text (codes "ping")) end)

-- The world counts the requests.
abbrev app : App ℕ
app = record {
  parse = λ body. some (object ping);
  admit = λ fields w. (w, true, false);
  request = λ fields w. (w + 1, false);
}

abbrev reader : Reader ℕ
reader = record { input = []; authenticated = true; closed = false; world = 0 }

cons_nonempty : {x : ℕ} {xs : Bytes} → ◌≢◌ {A = Bytes} (x ∷ xs) []
cons_nonempty e = cc

read-append_example :
    read app (3 ∷ 123 ∷ 32 ∷ 125 ∷ []) (read app (1 ∷ 0 ∷ 0 ∷ 0 ∷ []) reader)
    ≡ read app (1 ∷ 0 ∷ 0 ∷ 0 ∷ 3 ∷ 123 ∷ 32 ∷ 125 ∷ []) reader
read-append_example =
    read-append app (1 ∷ 0 ∷ 0 ∷ 0 ∷ []) (3 ∷ 123 ∷ 32 ∷ 125 ∷ []) reader cons_nonempty
      cons_nonempty

read-encode_message_example :
    read app (1 ∷ 0 ∷ 0 ∷ 0 ∷ 3 ∷ 123 ∷ 32 ∷ 125 ∷ []) reader
    ≡ message app (123 ∷ 32 ∷ 125 ∷ []) reader
unfolding encode_message pack
read-encode_message_example =
    read-encode_message app (123 ∷ 32 ∷ 125 ∷ []) reader
      {framed = 1 ∷ 0 ∷ 0 ∷ 0 ∷ 3 ∷ 123 ∷ 32 ∷ 125 ∷ []} refl refl refl

read-HasRoom_example : HasRoom (read app (1 ∷ 0 ∷ 0 ∷ []) reader)
read-HasRoom_example = read-HasRoom app (1 ∷ 0 ∷ 0 ∷ []) reader

abbrev calls : List Call
calls =
    authenticates
    ∷ sends_frame (123 ∷ 125 ∷ []) (7 ∷ 8 ∷ 9 ∷ [])
    ∷ writes (takes 4 ∷ blocks ∷ [])
    ∷ sends_cursor (123 ∷ 125 ∷ []) none
    ∷ sends (123 ∷ 125 ∷ [])
    ∷ []

run-IsAccounted_example : IsAccounted (run new calls)
run-IsAccounted_example = run-IsAccounted calls

buffered-le_example : (run new calls).buffered ≤ max_output + 5 + max_frame + max_cursor
buffered-le_example = buffered-le calls

write-Keeps_example :
    Keeps (run new calls) (write (takes 3 ∷ takes 9 ∷ blocks ∷ []) (run new calls))
write-Keeps_example = write-Keeps (takes 3 ∷ takes 9 ∷ blocks ∷ []) (run new calls)
