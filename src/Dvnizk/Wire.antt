-- ===== src/Dvnizk/Wire.antt =====
-- The proof as 160 bytes.
use tls_dvnizk.Base.{
  ℕ, ◌+◌, ◌%◌, ◌^◌, ◌<◌, ◌≤◌, ◌≡◌, sym, ap, ◌∙◌, [], ◌∷◌, ◌++◌, length, length-append, take, drop,
  take-append, ok, err, value_error, arith, ◌≢◌, ◌⊎◌, inl, inr, append-nil, length-take,
  length-drop,
}
use native.Mathlib.Nat.{zero-add, suc-add, mod-lt, add-mod_right}
use native.Mathlib.Decide.{ℕ_discrete}
use tls_dvnizk.Base.Bytes.{Bytes, le_bytes, le_value, length-le_bytes, le_value-le_bytes}
use tls_dvnizk.Dvnizk.Curve.{order, order_range, bytes_to_scalar}
use tls_dvnizk.Dvnizk.Proof.{Proof, serialize_proof, deserialize_proof, chunk}
use tls_dvnizk.Dvnizk.Honest.{scalar_to_bytes_lem}
use native.Mathlib.Nat.{mod-eq_of_lt}

order_small : order + order < 256 ^ 32
unfolding order
order_small = omega arith

ok_inj : {x y : Bytes} → ok x ≡ ok y → x ≡ y
ok_inj e = cc

-- Commitments of 32 bytes, and reduced scalars.
pub record IsWellFormed (proof : Proof) : Type 0 where
  pub length_r1 : length proof.r1_point ≡ 32
  pub length_r2 : length proof.r2_point ≡ 32
  pub s1_reduced : proof.s1 < order
  pub s2_reduced : proof.s2 < order
  pub c2_reduced : proof.c2 < order

take_by : (n : ℕ) (xs ys : Bytes) → length xs ≡ n → take n (xs ++ ys) ≡ xs
take_by n xs ys e = ap (λ (k : ℕ). take k (xs ++ ys)) (sym e) ∙ take-append xs ys

drop_past : (xs ys : Bytes) (k : ℕ) → drop (length xs + k) (xs ++ ys) ≡ drop k ys
drop_past [] ys k = rw zero-add
drop_past (x ∷ xs) ys k = rw suc-add (drop_past xs ys k)

drop_by : (n k : ℕ) (xs ys : Bytes) → length xs ≡ n → drop (n + k) (xs ++ ys) ≡ drop k ys
drop_by n k xs ys e = ap (λ (j : ℕ). drop (j + k) (xs ++ ys)) (sym e) ∙ drop_past xs ys k

take_all : (n : ℕ) (xs : Bytes) → length xs ≡ n → take n xs ≡ xs
take_all n xs e = ap (take n) (sym (append-nil xs)) ∙ take_by n xs [] e

chunk_next : (k : ℕ) (xs ys : Bytes) → length xs ≡ 32 → chunk (32 + k) (xs ++ ys) ≡ chunk k ys
chunk_next k xs ys e = ap (take 32) (drop_by 32 k xs ys e)

-- Five strings of 32 bytes, cut apart again.
abbrev five : Bytes → Bytes → Bytes → Bytes → Bytes → Bytes
five a b c d e = a ++ (b ++ (c ++ (d ++ e)))

record AreChunks (a b c d e : Bytes) : Type 0 where
  length_a : length a ≡ 32
  length_b : length b ≡ 32
  length_c : length c ≡ 32
  length_d : length d ≡ 32
  length_e : length e ≡ 32

length-five : (a b c d e : Bytes) → AreChunks a b c d e → length (five a b c d e) ≡ 160
length-five a b c d e h = omega (
  arith,
  length-append a (b ++ (c ++ (d ++ e))),
  length-append b (c ++ (d ++ e)),
  length-append c (d ++ e),
  length-append d e,
)

third_chunk : (a b c d e : Bytes) → AreChunks a b c d e → chunk 64 (five a b c d e) ≡ c
third_chunk a b c d e h =
    chunk_next 32 a _ h.length_a ∙ chunk_next 0 b _ h.length_b ∙ take_by 32 c _ h.length_c

deserialize-five :
    (a b c d e : Bytes)
    → AreChunks a b c d e
    → deserialize_proof (five a b c d e)
      ≡ ok (record {
        r1_point = a;
        r2_point = b;
        s1 = bytes_to_scalar c;
        s2 = bytes_to_scalar d;
        c2 = bytes_to_scalar e;
      })
unfolding deserialize_proof
deserialize-five a b c d e h = rw (
  length-five a b c d e h,
  take_by 32 a (b ++ (c ++ (d ++ e))) h.length_a,
  second,
  third_chunk a b c d e h,
  fourth,
  fifth,
)
  where
    second : chunk 32 (five a b c d e) ≡ b
    second = chunk_next 0 a _ h.length_a ∙ take_by 32 b _ h.length_b

    fourth : chunk 96 (five a b c d e) ≡ d
    fourth =
        chunk_next 64 a _ h.length_a
        ∙ chunk_next 32 b _ h.length_b
        ∙ chunk_next 0 c _ h.length_c
        ∙ take_by 32 d _ h.length_d

    fifth : chunk 128 (five a b c d e) ≡ e
    fifth =
        chunk_next 96 a _ h.length_a
        ∙ chunk_next 64 b _ h.length_b
        ∙ chunk_next 32 c _ h.length_c
        ∙ chunk_next 0 d _ h.length_d
        ∙ take_all 32 e h.length_e

bytes_to_scalar-le_bytes : (s : ℕ) → s < 256 ^ 32 → bytes_to_scalar (le_bytes 32 s) ≡ s % order
unfolding bytes_to_scalar
bytes_to_scalar-le_bytes s h = rw (le_value-le_bytes 32 s h)

bytes_to_scalar-lt : (bs : Bytes) → bytes_to_scalar bs < order
unfolding bytes_to_scalar
bytes_to_scalar-lt bs = mod-lt (le_value bs) (omega (arith, order_range))

proof_chunks :
    (proof : Proof)
    → IsWellFormed proof
    → (s : ℕ)
    → AreChunks proof.r1_point proof.r2_point
        (le_bytes 32 s)
        (le_bytes 32 proof.s2)
        (le_bytes 32 proof.c2)
proof_chunks proof h s = record {
  length_a = h.length_r1;
  length_b = h.length_r2;
  length_c = length-le_bytes 32 s;
  length_d = length-le_bytes 32 proof.s2;
  length_e = length-le_bytes 32 proof.c2;
}

serialize_lem :
    (proof : Proof)
    → IsWellFormed proof
    → serialize_proof proof
      ≡ ok (
          five proof.r1_point proof.r2_point
            (le_bytes 32 proof.s1)
            (le_bytes 32 proof.s2)
            (le_bytes 32 proof.c2))
unfolding serialize_proof
serialize_lem proof h = rw (
  scalar_to_bytes_lem proof.s1 h.s1_reduced,
  scalar_to_bytes_lem proof.s2 h.s2_reduced,
  scalar_to_bytes_lem proof.c2 h.c2_reduced,
)

-- A proof with commitments of 32 bytes and reduced scalars is written as 160 bytes, which are read
-- back as that proof.
pub deserialize-serialize :
    (proof : Proof)
    → IsWellFormed proof
    → (bs : Bytes) × (serialize_proof proof ≡ ok bs)
      × (length bs ≡ 160)
      × (deserialize_proof bs ≡ ok proof)
deserialize-serialize proof h = (
  five proof.r1_point proof.r2_point (le_bytes 32 proof.s1) (le_bytes 32 proof.s2)
      (le_bytes 32 proof.c2),
  serialize_lem proof h,
  length-five _ _ _ _ _ chunks,
  deserialize-five _ _ _ _ _ chunks
      ∙ rw (back proof.s1 h.s1_reduced, back proof.s2 h.s2_reduced, back proof.c2 h.c2_reduced),
)
  where
    chunks :
        AreChunks proof.r1_point proof.r2_point
          (le_bytes 32 proof.s1)
          (le_bytes 32 proof.s2)
          (le_bytes 32 proof.c2)
    chunks = proof_chunks proof h proof.s1

    back : (s : ℕ) → s < order → bytes_to_scalar (le_bytes 32 s) ≡ s
    back s lt = bytes_to_scalar-le_bytes s (omega (arith, order_range)) ∙ mod-eq_of_lt lt

-- `deserialize_proof` raises ValueError on a string that has not 160 bytes, and makes a proof with
-- commitments of 32 bytes and reduced scalars of every other.
pub deserialize_cases :
    (bs : Bytes)
    → ((length bs ≢ 160) × (deserialize_proof bs ≡ err value_error))
      ⊎ ((length bs ≡ 160)
          × ((proof : Proof) × (deserialize_proof bs ≡ ok proof) × IsWellFormed proof))
unfolding deserialize_proof
deserialize_cases bs = elim (ℕ_discrete (length bs) 160) [
  | no ne ↦ inl (ne, ground arith)
  | yes e ↦ inr (
    e,
    (
      record {
        r1_point = chunk 0 bs;
        r2_point = chunk 32 bs;
        s1 = bytes_to_scalar (chunk 64 bs);
        s2 = bytes_to_scalar (chunk 96 bs);
        c2 = bytes_to_scalar (chunk 128 bs);
      },
      ground arith,
      record {
        length_r1 = cut 0 e (omega arith);
        length_r2 = cut 32 e (omega arith);
        s1_reduced = bytes_to_scalar-lt (chunk 64 bs);
        s2_reduced = bytes_to_scalar-lt (chunk 96 bs);
        c2_reduced = bytes_to_scalar-lt (chunk 128 bs);
      },
    ),
  )
]
  where
    cut : (k : ℕ) → length bs ≡ 160 → k ≤ 128 → length (chunk k bs) ≡ 32
    cut k e le = omega (arith, length-take 32 (drop k bs), length-drop k bs)

-- The scalars on the wire need not be reduced: next to what `serialize_proof` writes for a proof there
-- is another string of 160 bytes that is read as the same proof.
pub deserialize_malleable :
    (proof : Proof)
    → IsWellFormed proof
    → (bs : Bytes) × (serialize_proof proof ≢ ok bs) × (deserialize_proof bs ≡ ok proof)
deserialize_malleable proof h = (
  five proof.r1_point proof.r2_point (le_bytes 32 (proof.s1 + order)) (le_bytes 32 proof.s2)
      (le_bytes 32 proof.c2),
  (λ e. absurd (omega (arith, order_range, value_of_third e))),
  deserialize-five _ _ _ _ _ (proof_chunks proof h (proof.s1 + order))
      ∙ rw (
        bytes_to_scalar-le_bytes (proof.s1 + order) (wide proof.s1 h.s1_reduced),
        bytes_to_scalar-le_bytes proof.s2 (omega (arith, order_range, wide proof.s2 h.s2_reduced)),
        bytes_to_scalar-le_bytes proof.c2 (omega (arith, order_range, wide proof.c2 h.c2_reduced)),
        add-mod_right proof.s1 order,
        mod-eq_of_lt h.s1_reduced,
        mod-eq_of_lt h.s2_reduced,
        mod-eq_of_lt h.c2_reduced,
      ),
)
  where
    wide : (s : ℕ) → s < order → s + order < 256 ^ 32
    wide s lt = omega (arith, order_small)

    value_of_third :
        serialize_proof proof
          ≡ ok (
              five proof.r1_point proof.r2_point
                (le_bytes 32 (proof.s1 + order))
                (le_bytes 32 proof.s2)
                (le_bytes 32 proof.c2))
        → proof.s1 ≡ proof.s1 + order
    value_of_third e =
        sym (le_value-le_bytes 32 proof.s1 (omega (arith, wide proof.s1 h.s1_reduced)))
        ∙ ap le_value (
            sym (third_chunk _ _ _ _ _ (proof_chunks proof h proof.s1))
            ∙ ap (chunk 64) (ok_inj (sym (serialize_lem proof h) ∙ e))
            ∙ third_chunk _ _ _ _ _ (proof_chunks proof h (proof.s1 + order)))
        ∙ le_value-le_bytes 32 (proof.s1 + order) (wide proof.s1 h.s1_reduced)
