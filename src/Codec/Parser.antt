-- ===== src/Codec/Parser.antt =====
-- tlslite/utils/codec.py: class `Parser`.
use tls_dvnizk.Base.{
  ℕ, zero, suc, ◌+◌, ◌-◌, ◌*◌, ◌/◌, ◌%◌, List, [], ◌∷◌, Bool, true, false, not, if◌then◌else◌, ltb,
  ◌==◌, length, take, drop, Method, pure, raise, raise_if, gets, modify, ◌>>=◌, ◌>>◌, decode_error,
  zero_division,
}
use tls_dvnizk.Base.Bytes.{Bytes, be_value}

pub record Parser : Type 0 where
  pub buffer : Bytes
  pub index : ℕ
  pub index_check : ℕ
  pub length_check : ℕ

-- `Parser(bytes)`
abbrev pub new_parser : Bytes → Parser
new_parser bs = record { buffer = bs; index = 0; index_check = 0; length_check = 0 }

-- `self.index += n`
abbrev pub advance : ℕ → Parser → Parser
advance n p = record p { index = p.index + n }

-- `self.bytes[self.index : end]`
abbrev pub slice : ℕ → Parser → Bytes
slice n p = take n (drop p.index p.buffer)

abbrev pub past_end : ℕ → Parser → Bool
past_end n p = ltb (length p.buffer) (p.index + n)

unfoldable pub get_fix_bytes : ℕ → Method Parser Bytes
get_fix_bytes n = do
  raise_if (← gets (past_end n)) decode_error
  ret ← gets (slice n)
  modify (advance n)
  pure ret

-- `Parser.get`
unfoldable pub get : ℕ → Method Parser ℕ
get n = do pure (be_value (← get_fix_bytes n))

unfoldable pub skip_bytes : ℕ → Method Parser (Unit {0})
skip_bytes n = do raise_if (← gets (past_end n)) decode_error; modify (advance n)

unfoldable pub get_var_bytes : ℕ → Method Parser Bytes
get_var_bytes length_length = do get_fix_bytes (← get length_length)

-- `for x in range(count): l[x] = self.get(length)`
unfoldable pub get_fix_list : ℕ → ℕ → Method Parser (List ℕ)
get_fix_list n zero = pure []
get_fix_list n (suc count) = do x ← get n; xs ← get_fix_list n count; pure (x ∷ xs)

-- `x % 0` raises in Python.
unfoldable pub get_var_list : ℕ → ℕ → Method Parser (List ℕ)
get_var_list n length_length = do
  total ← get length_length
  raise_if (n == 0) zero_division
  raise_if (not (total % n == 0)) decode_error
  get_fix_list n (total / n)

-- The outer loop of `getVarTupleList`; the inner one reads as `getFixList` does.
unfoldable pub get_tuples : ℕ → ℕ → ℕ → Method Parser (List (List ℕ))
get_tuples elem_length elem_num zero = pure []
get_tuples elem_length elem_num (suc count) = do
  t ← get_fix_list elem_length elem_num
  ts ← get_tuples elem_length elem_num count
  pure (t ∷ ts)

unfoldable pub get_var_tuple_list : ℕ → ℕ → ℕ → Method Parser (List (List ℕ))
get_var_tuple_list elem_length elem_num length_length = do
  total ← get length_length
  raise_if (elem_length * elem_num == 0) zero_division
  raise_if (not (total % (elem_length * elem_num) == 0)) decode_error
  get_tuples elem_length elem_num (total / (elem_length * elem_num))

-- `setLengthCheck`
unfoldable pub set_length_check : ℕ → Method Parser (Unit {0})
set_length_check n = modify (λ p. record p { length_check = n; index_check = p.index })

-- `startLengthCheck`
unfoldable pub start_length_check : ℕ → Method Parser (Unit {0})
start_length_check length_length = do
  n ← get length_length
  modify (λ p. record p { length_check = n; index_check = p.index })

-- `stopLengthCheck`. The index never falls below `index_check`, so the difference is a number.
unfoldable pub stop_length_check : Method Parser (Unit {0})
stop_length_check = do
  raise_if (not (← gets (λ p. p.index - p.index_check == p.length_check))) decode_error

-- `atLengthCheck`
unfoldable pub at_length_check : Method Parser Bool
at_length_check p =
    if ltb (p.index - p.index_check) p.length_check
    then pure false p
    else (if p.index - p.index_check == p.length_check then pure true p else raise decode_error p)

-- `getRemainingLength`. The index never passes the end.
unfoldable pub get_remaining_length : Method Parser ℕ
get_remaining_length = gets (λ p. length p.buffer - p.index)
