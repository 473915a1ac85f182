-- ===== src/Proto/Http.antt =====
-- crates/proto/src/http.rs: the server's side of HTTP CONNECT. `BufReader` is the bytes that it has buffered
-- and, behind them, what each later read of the socket will give; a read of nothing ends the list.
pub mod Cuts
pub mod Headers
pub mod Lines
use kanotls.Prelude.{
  ℕ, zero, suc, ◌+◌, ◌-◌, ◌*◌, List, [], ◌∷◌, ◌++◌, Option, none, some, Result, ok, err, Bool, true,
  false, if◌then◌else◌, ltb, leb, ◌==◌, ◌&&◌, ◌||◌, not, length, take, drop, min, get_or,
}
use kanotls.Flow.Receive.{saturating_add}
use kanotls.Proto.Utf8.{is_utf8}
use kanotls.Proto.Target.{TargetError, parse_authority_target}

abbrev pub max_request_line : ℕ
max_request_line = 8192

abbrev pub max_header_block : ℕ
max_header_block = 32 * 1024

-- "HTTP/1.1 200 Connection Established", and an empty line.
abbrev pub connect_success : List ℕ
connect_success =
    72 ∷ 84 ∷ 84 ∷ 80 ∷ 47 ∷ 49 ∷ 46 ∷ 49 ∷ 32 ∷ 50 ∷ 48 ∷ 48 ∷ 32 ∷ 67 ∷ 111 ∷ 110 ∷ 110 ∷ 101 ∷ 99
    ∷ 116 ∷ 105 ∷ 111 ∷ 110 ∷ 32 ∷ 69 ∷ 115 ∷ 116 ∷ 97 ∷ 98 ∷ 108 ∷ 105 ∷ 115 ∷ 104 ∷ 101 ∷ 100 ∷ 13
    ∷ 10 ∷ 13 ∷ 10 ∷ []

-- "HTTP/1.1 405 Method Not Allowed", "Connection: close", and an empty line.
abbrev pub method_not_allowed : List ℕ
method_not_allowed =
    72 ∷ 84 ∷ 84 ∷ 80 ∷ 47 ∷ 49 ∷ 46 ∷ 49 ∷ 32 ∷ 52 ∷ 48 ∷ 53 ∷ 32 ∷ 77 ∷ 101 ∷ 116 ∷ 104 ∷ 111
    ∷ 100 ∷ 32 ∷ 78 ∷ 111 ∷ 116 ∷ 32 ∷ 65 ∷ 108 ∷ 108 ∷ 111 ∷ 119 ∷ 101 ∷ 100 ∷ 13 ∷ 10 ∷ 67 ∷ 111
    ∷ 110 ∷ 110 ∷ 101 ∷ 99 ∷ 116 ∷ 105 ∷ 111 ∷ 110 ∷ 58 ∷ 32 ∷ 99 ∷ 108 ∷ 111 ∷ 115 ∷ 101 ∷ 13 ∷ 10
    ∷ 13 ∷ 10 ∷ []

pub data HttpError : Type 0 where
  line_too_large : HttpError
  not_utf8 : HttpError
  invalid_request : HttpError
  header_block_too_large : HttpError
  only_connect : HttpError
  not_authority_form : HttpError
  target_error : TargetError → HttpError

-- `position(|&b| b == b'\n')`
abbrev pub newline_at : List ℕ → Option ℕ
newline_at [] = none
newline_at (b ∷ bs) =
    let later = newline_at bs in
    if b == 10 then some 0 else elim later [ none ↦ none | some n ↦ some (suc n) ]

-- A line and what is left of the reader. The head of the pieces is what is buffered: an empty one is filled
-- with the next read. A piece is taken to its newline, or whole.
unfoldable pub read_limited_line :
    ℕ → List ℕ → List (List ℕ) → Result HttpError (List ℕ × List (List ℕ))
unfolding is_utf8
read_limited_line max_len line [] = ok (line, [])
read_limited_line max_len line (piece ∷ pieces) =
    let later = read_limited_line max_len (line ++ piece) pieces in
    elim (newline_at piece) [
      | none ↦
          if ltb max_len (saturating_add (length line) (length piece))
          then err line_too_large
          else if not (is_utf8 piece)
          then err not_utf8
          else later
      | some pos ↦
          if ltb max_len (saturating_add (length line) (pos + 1))
          then err line_too_large
          else if not (is_utf8 (take (pos + 1) piece))
          then err not_utf8
          else ok (line ++ take (pos + 1) piece, drop (pos + 1) piece ∷ pieces)
    ]

-- The header lines up to an empty one; each of the others has three bytes at least, so the limit on the block
-- is fuel enough.
unfoldable pub skip_headers : ℕ → ℕ → List (List ℕ) → Result HttpError (List (List ℕ))
unfolding read_limited_line
skip_headers zero header_block_len reader = err header_block_too_large
skip_headers (suc fuel) header_block_len reader =
    elim (read_limited_line max_request_line [] reader) [
      | err e ↦ err e
      | ok (line, rest) ↦
          let later = skip_headers fuel (header_block_len + length line) rest in
          if leb (length line) 2
          then ok rest
          else if ltb max_header_block (header_block_len + length line)
          then err header_block_too_large
          else later
    ]

-- The bytes of a white space character in front, as `char::is_whitespace` has it.
abbrev pub white_space : List ℕ → ℕ
white_space bs =
    let b = get_or bs 0 0 in
    let c = get_or bs 1 0 in
    let d = get_or bs 2 0 in
    if (b == 32) || (leb 9 b && leb b 13)
    then 1
    else if (b == 194) && ((c == 133) || (c == 160))
    then 2
    else if (b == 225) && ((c == 154) && (d == 128))
    then 3
    else if (b == 226)
        && ((c == 128) && ((leb 128 d && leb d 138) || ((d == 168) || ((d == 169) || (d == 175)))))
    then 3
    else if (b == 226) && ((c == 129) && (d == 159))
    then 3
    else if (b == 227) && ((c == 128) && (d == 128))
    then 3
    else 0

abbrev pub end_word : List ℕ → List (List ℕ) → List (List ℕ)
end_word [] words = words
end_word (b ∷ bs) words = (b ∷ bs) ∷ words

-- `split_whitespace`, with the word so far, and how many bytes of white space are still to be left out.
unfoldable pub split_whitespace : ℕ → List ℕ → List ℕ → List (List ℕ)
split_whitespace skip word [] = end_word word []
split_whitespace skip word (b ∷ bs) =
    let inside = split_whitespace 0 (word ++ (b ∷ [])) bs in
    let skipping = split_whitespace (skip - 1) [] bs in
    let white = white_space (b ∷ bs) in
    let behind = split_whitespace (white - 1) [] bs in
    if ltb 0 skip then skipping else if ltb 0 white then end_word word behind else inside

abbrev pub contains_slash : List ℕ → Bool
contains_slash [] = false
contains_slash (b ∷ bs) = (b == 47) || contains_slash bs

-- The error keeps its kind; only its words change.
abbrev pub map_error {ℓ} : {A : Type ℓ} → Result TargetError A → Result HttpError A
map_error (ok a) = ok a
map_error (err e) = err (target_error e)

unfoldable pub parse_connect_target : List ℕ → Result HttpError (List ℕ × ℕ)
unfolding parse_authority_target
parse_connect_target target =
    if contains_slash target
    then err not_authority_form
    else map_error (parse_authority_target target)

abbrev pub is_connect : List ℕ → Bool
is_connect method =
    (length method == 7)
    && ((get_or method 0 0 == 67)
        && ((get_or method 1 0 == 79)
            && ((get_or method 2 0 == 78)
                && ((get_or method 3 0 == 78)
                    && ((get_or method 4 0 == 69)
                        && ((get_or method 5 0 == 67) && (get_or method 6 0 == 84)))))))

-- What the handshake has written, and the host, the port and the reads that are left for the relay:
-- `into_inner` drops what is buffered.
abbrev pub Handshake : Type 0
Handshake = List ℕ × Result HttpError (List ℕ × ℕ × List (List ℕ))

abbrev pub without_buffer : List (List ℕ) → List (List ℕ)
without_buffer [] = []
without_buffer (buffered ∷ reads) = reads

abbrev pub connect_to :
    List (List ℕ) → Result HttpError (List ℕ × ℕ) → Result HttpError (List ℕ × ℕ × List (List ℕ))
connect_to reader (ok (host, port)) = ok (host, port, without_buffer reader)
connect_to reader (err e) = err e

unfoldable pub serve_connect : List (List ℕ) → Result HttpError (List (List ℕ)) → Handshake
unfolding parse_connect_target
serve_connect (method ∷ (target ∷ more)) (ok reader) =
    if not (is_connect method)
    then (method_not_allowed, err only_connect)
    else ([], connect_to reader (parse_connect_target target))
serve_connect _ (ok reader) = ([], err invalid_request)
serve_connect _ (err e) = ([], err e)

unfoldable pub http_handshake : List (List ℕ) → Handshake
unfolding read_limited_line skip_headers split_whitespace serve_connect
http_handshake reader = elim (read_limited_line max_request_line [] ([] ∷ reader)) [
  | err e ↦ ([], err e)
  | ok (line, rest) ↦
      let parts = split_whitespace 0 [] line in
      let headers = skip_headers max_header_block (length line) rest in
      if ltb (length parts) 3 then ([], err invalid_request) else serve_connect parts headers
]
