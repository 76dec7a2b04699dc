-- ===== src/Codec/Nested.antt =====
-- tlslite/utils/codec.py, as tlslite/messages.py and extensions.py use it: a writer inside a writer, and loops that read
-- items until a length check or the end of a parser.
use tls_dvnizk.Base.{
  ℕ, zero, suc, List, [], ◌∷◌, not, ◌==◌, if◌then◌else◌, length, Result, ok, err, Method, pure,
  raise_if, gets, ◌>>=◌, ◌>>◌, decode_error,
}
use tls_dvnizk.Base.Bytes.{Bytes}
use tls_dvnizk.Codec.Writer.{Writer, empty_writer, add_var_bytes}
use tls_dvnizk.Codec.Parser.{
  Parser, new_parser, get_remaining_length, start_length_check, stop_length_check, at_length_check,
}

-- `w.add(len(w2.bytes), n); w.bytes += w2.bytes`, for what a second writer has ended in.
abbrev pub append_writer : ℕ → Result (Unit {0}) × Writer → Method Writer (Unit {0})
append_writer n (ok done, w2) w = add_var_bytes w2.buffer n w
append_writer n (err problem, w2) w = (err problem, w)

abbrev pub nested : ℕ → Method Writer (Unit {0}) → Method Writer (Unit {0})
nested n m = append_writer n (m empty_writer)

-- A result of a method of another object.
abbrev pub inner {ℓ κ} : {S : Type ℓ} {A : Type κ} → Result A → Method S A
inner result s = (result, s)

module _ {ℓ} {A : Type ℓ} where
  -- `for x in xs: put(x)`
  abbrev pub write_each : (A → Method Writer (Unit {0})) → List A → Method Writer (Unit {0})
  write_each put [] = pure tt
  write_each put (x ∷ xs) = put x >> write_each put xs

  -- How many bytes a list is written as.
  abbrev pub size_of : (A → Method Writer (Unit {0})) → List A → ℕ
  size_of put xs = length ((write_each put xs empty_writer).1.buffer)

  -- `while not parser.atLengthCheck(): xs.append(item)`; an item takes a byte at least or raises.
  unfoldable pub until_checked : ℕ → Method Parser A → Method Parser (List A)
  until_checked zero item = pure []
  until_checked (suc fuel) item = do
    done ← at_length_check
    if done then pure [] else (item >>= λ x. until_checked fuel item >>= λ xs. pure (x ∷ xs))

  -- `parser.startLengthCheck(n)`, the loop, `parser.stopLengthCheck()`
  unfoldable pub read_list : ℕ → Method Parser A → Method Parser (List A)
  read_list n item = do
    start_length_check n
    fuel ← gets (λ p. suc (length p.buffer))
    xs ← until_checked fuel item
    stop_length_check
    pure xs

  -- `while parser.getRemainingLength(): xs.append(item)`
  unfoldable pub until_end : ℕ → Method Parser A → Method Parser (List A)
  until_end zero item = pure []
  until_end (suc fuel) item = do
    left ← get_remaining_length
    if left == 0 then pure [] else (item >>= λ x. until_end fuel item >>= λ xs. pure (x ∷ xs))

  -- The fuel of it, which is more than the bytes.
  abbrev pub to_the_end : Method Parser A → Method Parser (List A)
  to_the_end item p = until_end (suc (length p.buffer)) item p

  -- The same on a parser of these bytes.
  abbrev pub read_all : Method Parser A → Bytes → Result (List A)
  read_all item bs = (to_the_end item (new_parser bs)).0

  -- `if parser.getRemainingLength(): raise DecodeError(...)`, and the end of the method.
  unfoldable pub at_end : A → Method Parser A
  at_end v = do left ← get_remaining_length; raise_if (not (left == 0)) decode_error; pure v

  -- `if not parser.getRemainingLength(): return` with a default value.
  unfoldable pub unless_empty : A → Method Parser A → Method Parser A
  unless_empty default r = do left ← get_remaining_length; if left == 0 then pure default else r
