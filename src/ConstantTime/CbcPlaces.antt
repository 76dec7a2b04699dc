-- ===== src/ConstantTime/CbcPlaces.antt =====
-- tlslite/utils/constanttime.py: the loop of `ct_check_cbc_mac_and_pad` over the places of the MAC.
use native.Mathlib.Nat.{div-add-mod}
use tls_dvnizk.Base.{
  ℕ, ◌+◌, ◌-◌, ◌*◌, ◌/◌, ◌^◌, ◌≤◌, ◌<◌, ◌≡◌, refl, sym, ap, subst, ◌∙◌, ◌↔◌, ◌⊎◌, inl, inr, ◌++◌,
  length, take, drop, length-take, length-drop, All, append_assoc, arith,
}
use tls_dvnizk.Base.Bytes.{Bytes, IsByte, byte_at, byte_at-IsByte}
use tls_dvnizk.ConstantTime.Words.{ct_eq_u32, ct_lsb_prop_u8}
use tls_dvnizk.ConstantTime.Cbc.{Mac, for_range, or_masked, pad_start_of, compare_at}
use tls_dvnizk.ConstantTime.Loops.{
  le_split, for_range-down, for_range-up, or_masked-open, or_masked_same, or_masked-closed,
  or_masked_closed_zero, same_items, byte_at-take, byte_at-drop, take-append-drop-take,
}
use tls_dvnizk.ConstantTime.CbcCheck.{split_le, eq_on, eq_off}

-- What the documentation of `hmac` says of its objects.
pub record IsHash (mac : Mac) : Type 0 where
  pub digest_length : (text : Bytes) → length (mac.digest text) ≡ mac.digest_size
  pub digest_bytes : (text : Bytes) → All IsByte (mac.digest text)
  pub block_positive : 0 < mac.block_size

-- Where the MAC starts.
abbrev pub mac_start_of : Mac → Bytes → ℕ
mac_start_of mac payload = pad_start_of payload - mac.digest_size

-- The bytes at the place of the MAC are that of the header and of all before.
pub GoodMac : Mac → Bytes → Bytes → Type 0
GoodMac mac header payload =
    take mac.digest_size (drop (mac_start_of mac payload) payload)
    ≡ mac.digest (header ++ take (mac_start_of mac payload) payload)

-- Where the loop starts: the last multiple of the block before all places.
abbrev pub start_of : Mac → Bytes → ℕ
start_of mac payload = (length payload - (256 + mac.digest_size)) / mac.block_size * mac.block_size

apart_or_same : (a b : ℕ) → (a ≡ b) ⊎ ((a < b) ⊎ (b < a))
apart_or_same a b = elim (split_le a b) [
  | inl h ↦ elim (le_split a b h) [ inl e ↦ inl e | inr l ↦ inr (inl (omega arith)) ]
  | inr h ↦ inr (inr h)
]

module _ (mac : Mac) (hash : IsHash mac) (header payload : Bytes) (bytes : All IsByte payload)
    (size : length payload < 2 ^ 16) (long : mac.digest_size < length payload) where
  place : ℕ
  place = mac_start_of mac payload

  unfoldable pub first : ℕ
  first = start_of mac payload

  computed : ℕ → Bytes
  computed i = mac.digest ((header ++ take first payload) ++ drop first (take i payload))

  -- At `i` the bytes are the digest.
  SameAt : ℕ → Type 0
  SameAt i = (j : ℕ) → j < mac.digest_size → byte_at (i + j) payload ≡ byte_at j (computed i)

  MacAt : ℕ → Type 0
  MacAt i = i ≡ place → SameAt i

  computed_bytes : (i : ℕ) → All IsByte (computed i)
  unfolding computed
  computed_bytes i =
      hash.digest_bytes ((header ++ take first payload) ++ drop first (take i payload))

  item_body : ℕ → ℕ → ℕ → ℕ → ℕ
  item_body mask i j result =
      or_masked mask (byte_at (i + j) payload) (byte_at j (computed i)) result

  open-down :
      (i result : ℕ)
      → for_range 0 mac.digest_size (item_body 255 i) result ≡ 0
      → (result ≡ 0) × SameAt i
  unfolding SameAt item_body
  open-down i result e =
      let (start, all) =
        for_range-down (λ j. byte_at (i + j) payload ≡ byte_at j (computed i)) (item_body 255 i)
          mac.digest_size
          (λ j r lt e.
            or_masked-open (byte_at (i + j) payload) (byte_at j (computed i)) r
              (byte_at-IsByte (i + j) payload bytes)
              (byte_at-IsByte j (computed i) (computed_bytes i)) e)
          (λ j r lt e same.
            or_masked_same 255 (byte_at (i + j) payload) (byte_at j (computed i)) r e same
              (omega arith))
          0 mac.digest_size result (omega arith) e in
      (start, λ j lt. all j (omega arith) (omega arith))

  open-up :
      (i result : ℕ)
      → result ≡ 0
      → SameAt i
      → for_range 0 mac.digest_size (item_body 255 i) result ≡ 0
  unfolding SameAt item_body
  open-up i result e same =
      for_range-up (λ j. byte_at (i + j) payload ≡ byte_at j (computed i)) (item_body 255 i)
        mac.digest_size
        (λ j r lt e.
          or_masked-open (byte_at (i + j) payload) (byte_at j (computed i)) r
            (byte_at-IsByte (i + j) payload bytes)
            (byte_at-IsByte j (computed i) (computed_bytes i)) e)
        (λ j r lt e same.
          or_masked_same 255 (byte_at (i + j) payload) (byte_at j (computed i)) r e same
            (omega arith))
        0 mac.digest_size result (omega arith) e (λ j p lt. same j (omega arith))

  closed-down : (i result : ℕ) → for_range 0 mac.digest_size (item_body 0 i) result ≡ 0 → result ≡ 0
  unfolding item_body
  closed-down i result e =
      (for_range-down (λ j. Unit {0}) (item_body 0 i) mac.digest_size
        (λ j r lt e. (or_masked-closed (byte_at (i + j) payload) (byte_at j (computed i)) r e, tt))
        (λ j r lt e u. or_masked_closed_zero (byte_at (i + j) payload) (byte_at j (computed i)) r e)
        0 mac.digest_size result (omega arith) e).0

  closed-up : (i result : ℕ) → result ≡ 0 → for_range 0 mac.digest_size (item_body 0 i) result ≡ 0
  unfolding item_body
  closed-up i result e =
      for_range-up (λ j. Unit {0}) (item_body 0 i) mac.digest_size
        (λ j r lt e. (or_masked-closed (byte_at (i + j) payload) (byte_at j (computed i)) r e, tt))
        (λ j r lt e u. or_masked_closed_zero (byte_at (i + j) payload) (byte_at j (computed i)) r e)
        0 mac.digest_size result (omega arith) e (λ j p q. tt)

  start_before : first ≤ place
  unfolding first place
  start_before = omega (
    arith,
    byte_at-IsByte (length payload - 1) payload bytes,
    div-add-mod (length payload - (256 + mac.digest_size)) mac.block_size,
  )

  place_inside : place < length payload - mac.digest_size
  unfolding place
  place_inside = omega (arith, long)

  mask_at : ℕ → ℕ
  mask_at i = ct_lsb_prop_u8 (ct_eq_u32 i place)

  mac_body : ℕ → ℕ → ℕ
  mac_body i result = for_range 0 mac.digest_size (item_body (mask_at i) i) result

  on_place : (i : ℕ) → i ≡ place → mask_at i ≡ 255
  unfolding mask_at
  on_place i e = ap (λ (t : ℕ). ct_lsb_prop_u8 (ct_eq_u32 t place)) e ∙ eq_on place

  off_place : (i : ℕ) → i < length payload → (i < place) ⊎ (place < i) → mask_at i ≡ 0
  unfolding mask_at
  off_place i lt apart = eq_off i place apart (omega arith) (omega (arith, place_inside))

  masked :
      (i m result : ℕ)
      → mask_at i ≡ m
      → for_range 0 mac.digest_size (item_body m i) result ≡ mac_body i result
  unfolding mac_body
  masked i m result e = ap (λ (t : ℕ). for_range 0 mac.digest_size (item_body t i) result) (sym e)

  mac_body-down :
      (i result : ℕ) → i < length payload → mac_body i result ≡ 0 → (result ≡ 0) × MacAt i
  unfolding MacAt
  mac_body-down i result lt e = elim (apart_or_same i place) [
    | inl here ↦
        let (start, same) = open-down i result (masked i 255 result (on_place i here) ∙ e) in
        (start, λ q. same)
    | inr apart ↦ (
      closed-down i result (masked i 0 result (off_place i lt apart) ∙ e),
      λ q. absurd (omega arith),
    )
  ]

  mac_body-up : (i result : ℕ) → i < length payload → result ≡ 0 → MacAt i → mac_body i result ≡ 0
  unfolding MacAt
  mac_body-up i result lt e good = elim (apart_or_same i place) [
    | inl here ↦ sym (masked i 255 result (on_place i here)) ∙ open-up i result e (good here)
    | inr apart ↦ sym (masked i 0 result (off_place i lt apart)) ∙ closed-up i result e
  ]

  mac_loop : ℕ → ℕ
  mac_loop result = for_range first (length payload - mac.digest_size - first) mac_body result

  mac_loop-down : (result : ℕ) → mac_loop result ≡ 0 → (result ≡ 0) × SameAt place
  unfolding mac_loop MacAt
  mac_loop-down result e =
      let (start, all) =
        for_range-down MacAt mac_body (length payload) mac_body-down mac_body-up first
          (length payload - mac.digest_size - first) result
          (omega (arith, start_before, place_inside)) e in
      (start, all place start_before (omega (arith, start_before, place_inside)) refl)

  mac_loop-up : (result : ℕ) → result ≡ 0 → SameAt place → mac_loop result ≡ 0
  unfolding mac_loop MacAt
  mac_loop-up result e same =
      for_range-up MacAt mac_body (length payload) mac_body-down mac_body-up first
        (length payload - mac.digest_size - first) result
        (omega (arith, start_before, place_inside)) e (λ i p q here. subst SameAt (sym here) same)

  whole : computed place ≡ mac.digest (header ++ take place payload)
  unfolding computed
  whole = ap mac.digest (
      append_assoc header (take first payload) (drop first (take place payload))
      ∙ ap (λ (t : Bytes). header ++ t) (take-append-drop-take first place payload start_before))

  exact_span : length (take mac.digest_size (drop place payload)) ≡ mac.digest_size
  exact_span = omega (
    arith,
    length-take mac.digest_size (drop place payload),
    length-drop place payload,
    place_inside,
  )

  SameAt-GoodMac :
      SameAt place
      → take mac.digest_size (drop place payload) ≡ mac.digest (header ++ take place payload)
  unfolding SameAt
  SameAt-GoodMac same =
      same_items (take mac.digest_size (drop place payload))
        (mac.digest (header ++ take place payload))
        (exact_span ∙ sym (hash.digest_length (header ++ take place payload)))
        (λ j lt.
          byte_at-take mac.digest_size j (drop place payload) (omega (arith, exact_span, lt))
          ∙ byte_at-drop place j payload
          ∙ same j (omega (arith, exact_span, lt))
          ∙ ap (byte_at j) whole)

  GoodMac-SameAt :
      take mac.digest_size (drop place payload) ≡ mac.digest (header ++ take place payload)
      → SameAt place
  unfolding SameAt
  GoodMac-SameAt good j lt =
      sym (byte_at-drop place j payload)
      ∙ sym (byte_at-take mac.digest_size j (drop place payload) lt)
      ∙ ap (byte_at j) (good ∙ sym whole)

  pub mac_loop-GoodMac :
      (result : ℕ)
      → (for_range first
            (length payload - mac.digest_size - first)
            (compare_at mac header payload (mac_start_of mac payload) first)
            result
          ≡ 0)
        ↔ ((result ≡ 0) × GoodMac mac header payload)
  unfolding mac_loop mac_body item_body computed mask_at compare_at place GoodMac
  mac_loop-GoodMac result = (
    λ e. let (start, same) = mac_loop-down result e in (start, SameAt-GoodMac same),
    λ (start, good). mac_loop-up result start (GoodMac-SameAt good),
  )
