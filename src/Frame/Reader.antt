-- ===== src/Frame/Reader.antt =====
-- crates/session/src/session.rs, `Session::read_loop`: what a read adds to the reassembly buffer, and
-- the loop that takes the whole frames out of it. The frames are listed in the order in which the
-- loop hands them over; a frame that the handler refuses ends the session and is not modelled here.
pub mod Reassembly
use kanotls.Prelude.{
  ℕ, zero, suc, List, [], ◌∷◌, ◌++◌, Option, none, some, if◌then◌else◌, ltb, length, Bool, true,
  false,
}
use kanotls.Frame.{Frame, decode}

abbrev pub max_session_reassembly_bytes : ℕ
max_session_reassembly_bytes = 1048576

pub record Reader : Type 0 where
  pub buf : List ℕ
  pub delivered : List Frame
  pub is_open : Bool

abbrev pub new_reader : Reader
new_reader = record { buf = []; delivered = []; is_open = true }

-- `while let Some(frame) = Frame::decode(&mut buf)`, on fuel: the frames, and what stays in the buffer.
unfoldable pub decode_loop : ℕ → List ℕ → List Frame × List ℕ
decode_loop zero buf = ([], buf)
decode_loop (suc fuel) buf = elim (decode buf).0 [
  | none ↦ ([], (decode buf).1)
  | some frame ↦ let rest = decode_loop fuel (decode buf).1 in (frame ∷ rest.0, rest.1)
]

-- A frame takes seven bytes at least, so the buffer's length is fuel enough.
abbrev pub decode_all : List ℕ → List Frame × List ℕ
decode_all buf = decode_loop (length buf) buf

abbrev closed : Reader → Reader
closed r = record r { is_open = false }

-- A read of no byte is the end of the stream.
unfoldable pub on_read : Reader → List ℕ → Reader
on_read r [] = closed r
on_read r (b ∷ bs) =
    let buf = r.buf ++ (b ∷ bs) in
    let taken = decode_all buf in
    if r.is_open
    then (if ltb max_session_reassembly_bytes (length buf)
        then closed (record r { buf = buf })
        else record r { buf = taken.1; delivered = r.delivered ++ taken.0 })
    else r

unfoldable pub read_loop : Reader → List (List ℕ) → Reader
unfolding on_read
read_loop r [] = r
read_loop r (chunk ∷ chunks) = read_loop (on_read r chunk) chunks
