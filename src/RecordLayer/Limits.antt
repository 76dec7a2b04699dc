-- ===== src/RecordLayer/Limits.antt =====
-- tlslite/recordlayer.py: what `recvRecord` never delivers.
use tls_dvnizk.Base.{
  ℕ, ◌≤◌, ◌≡◌, refl, ap, List, [], ◌∷◌, Bool, true, false, if◌then◌else◌, Option, some, length,
  Result, ok, err, Error, arith,
}
use tls_dvnizk.Base.Bytes.{Bytes}
use tls_dvnizk.RecordLayer.State.{ConnectionState}
use tls_dvnizk.RecordLayer.Header.{Header, create3}
use tls_dvnizk.RecordLayer.Protect.{is_some}
use tls_dvnizk.RecordLayer.Open.{tls13_de_pad}
use tls_dvnizk.RecordLayer.Receive.{
  Reader, unexpected_early_data, Limits, Outcome, again, delivered, unprotect, retyped,
  within_limit, inner_record, finish_record, skip_or_raise, refused, accepted, recv_step,
  recv_record,
}

within_limit_lem :
    (limit : ℕ) (header : Header) (text : Bytes) (h : Header) (t : Bytes)
    → within_limit limit header text ≡ ok (h, t)
    → length t ≤ limit
unfolding within_limit
within_limit_lem limit header text h t e = ground arith

inner_record_lem :
    (limit : ℕ) (inner : Result (Bytes × ℕ)) (h : Header) (t : Bytes)
    → inner_record limit inner ≡ ok (h, t)
    → length t ≤ limit
unfolding inner_record
inner_record_lem limit (ok (text, content_type)) h t e =
    within_limit_lem limit (create3 (3, 4) content_type (length text)) text h t e
inner_record_lem limit (err problem) h t e = absurd (ground arith)

finish_record_lem :
    (limits : Limits) (encrypted : Bool) (header : Header) (text : Bytes) (h : Header) (t : Bytes)
    → finish_record limits encrypted header text ≡ ok (h, t)
    → length t ≤ limits.recv_record_limit
unfolding finish_record
finish_record_lem limits encrypted header text h t e = ground (
  arith,
  within_limit_lem limits.recv_record_limit header text h t,
  inner_record_lem limits.recv_record_limit (tls13_de_pad text) h t,
)

accepted_lem :
    (limits : Limits) (r : Result (Header × Bytes)) (s : ConnectionState) (h : Header) (t : Bytes)
    (after : Reader)
    → ((x : Header) (y : Bytes) → r ≡ ok (x, y) → length y ≤ limits.recv_record_limit)
    → accepted r s ≡ (ok (delivered h t), after)
    → (length t ≤ limits.recv_record_limit)
      × ((after.early_data_ok ≡ false) × (after.early_data_processed ≡ 0))
unfolding accepted
accepted_lem limits (ok (x, y)) s h t after law e = ground (arith, law x y refl)
accepted_lem limits (err problem) s h t after law e = absurd (ground arith)

skip_never_delivers :
    (limits : Limits) (before : Reader) (s : ConnectionState) (n : ℕ) (h : Header) (t : Bytes)
    (after : Reader)
    → skip_or_raise limits before s n ≡ (ok (delivered h t), after)
    → ⊥
unfolding skip_or_raise
skip_never_delivers limits before s n h t after e = ground arith

refused_never_delivers :
    (limits : Limits) (before : Reader) (s : ConnectionState) (n : ℕ) (problem : Error) (h : Header)
    (t : Bytes) (after : Reader)
    → refused limits before s n problem ≡ (ok (delivered h t), after)
    → ⊥
unfolding refused
refused_never_delivers limits before s n problem h t after e =
    ground (arith, skip_never_delivers limits before s n h t after)

-- The end of a turn of the loop, by what the `try` block gave.
step_end :
    Limits → Header → Bytes → Reader → Result Bytes × ConnectionState → Result Outcome × Reader
step_end limits header text before (outcome, after) = elim outcome [
  | err problem ↦ refused limits before after (length text) problem
  | ok plain ↦
      if unexpected_early_data before after (retyped limits header)
      then skip_or_raise limits before after (length plain)
      else accepted (finish_record limits (is_some after.enc_context) (retyped limits header) plain)
          after
]

step_end_lem :
    (limits : Limits) (header : Header) (text : Bytes) (before : Reader) (outcome : Result Bytes)
    (s : ConnectionState) (h : Header) (t : Bytes) (after : Reader)
    → step_end limits header text before (outcome, s) ≡ (ok (delivered h t), after)
    → (length t ≤ limits.recv_record_limit)
      × ((after.early_data_ok ≡ false) × (after.early_data_processed ≡ 0))
unfolding step_end
step_end_lem limits header text before (err problem) s h t after e =
    absurd (refused_never_delivers limits before s (length text) problem h t after e)
step_end_lem limits header text before (ok plain) s h t after e =
    by_test (unexpected_early_data before s (retyped limits header)) e
  where
    by_test :
        (b : Bool)
        → (if b
            then skip_or_raise limits before s (length plain)
            else accepted
                (finish_record limits (is_some s.enc_context) (retyped limits header) plain)
                s)
          ≡ (ok (delivered h t), after)
        → (length t ≤ limits.recv_record_limit)
          × ((after.early_data_ok ≡ false) × (after.early_data_processed ≡ 0))
    by_test true e = absurd (skip_never_delivers limits before s (length plain) h t after e)
    by_test false e =
        accepted_lem limits
          (finish_record limits (is_some s.enc_context) (retyped limits header) plain) s h t after
          (λ x y f.
            finish_record_lem limits (is_some s.enc_context) (retyped limits header) plain x y f)
          e

recv_step_lem :
    (limits : Limits) (header : Header) (text : Bytes) (before : Reader) (h : Header) (t : Bytes)
    (after : Reader)
    → recv_step limits header text before ≡ (ok (delivered h t), after)
    → (length t ≤ limits.recv_record_limit)
      × ((after.early_data_ok ≡ false) × (after.early_data_processed ≡ 0))
unfolding recv_step step_end
recv_step_lem limits header text before h t after e =
    let (outcome, s) = unprotect limits.own header text before.read_state in
    step_end_lem limits header text before outcome s h t after e

-- The end of the loop, by what the turn gave.
loop_end :
    Result Outcome × Reader
    → Result (Option (Header × Bytes)) × Reader
    → Result (Option (Header × Bytes)) × Reader
loop_end (outcome, after) rest = elim outcome [
  | err problem ↦ (err problem, after)
  | ok result ↦ elim result [ again ↦ rest | delivered h t ↦ (ok (some (h, t)), after) ]
]

loop_end_lem :
    (limits : Limits) (outcome : Result Outcome) (s : Reader)
    (rest : Result (Option (Header × Bytes)) × Reader) (h : Header) (t : Bytes) (after : Reader)
    → ((x : Header) (y : Bytes)
        → outcome ≡ ok (delivered x y)
        → (length y ≤ limits.recv_record_limit)
          × ((s.early_data_ok ≡ false) × (s.early_data_processed ≡ 0)))
    → (rest ≡ (ok (some (h, t)), after)
        → (length t ≤ limits.recv_record_limit)
          × ((after.early_data_ok ≡ false) × (after.early_data_processed ≡ 0)))
    → loop_end (outcome, s) rest ≡ (ok (some (h, t)), after)
    → (length t ≤ limits.recv_record_limit)
      × ((after.early_data_ok ≡ false) × (after.early_data_processed ≡ 0))
unfolding loop_end
loop_end_lem limits (err problem) s rest h t after now later e = absurd (ground arith)
loop_end_lem limits (ok again) s rest h t after now later e = later e
loop_end_lem limits (ok (delivered x y)) s rest h t after now later e = ground (arith, now x y refl)

-- What `recvRecord` delivers, whatever the socket gives, is no longer than the limit, and once it has delivered,
-- no further record is skipped as early data.
pub recv_record_within :
    (limits : Limits) (records : List (Header × Bytes)) (before : Reader) (h : Header) (t : Bytes)
    (after : Reader)
    → recv_record limits records before ≡ (ok (some (h, t)), after)
    → (length t ≤ limits.recv_record_limit)
      × ((after.early_data_ok ≡ false) × (after.early_data_processed ≡ 0))
unfolding recv_record loop_end recv_step
recv_record_within limits [] before h t after e = absurd (ground arith)
recv_record_within limits ((header, text) ∷ records) before h t after e =
    let (outcome, s) = recv_step limits header text before in
    let rest = recv_record limits records s in
    loop_end_lem limits outcome s rest h t after
      (λ x y f.
        recv_step_lem limits header text before x y s (ap (λ (o : Result Outcome). (o, s)) f))
      (λ f. recv_record_within limits records s h t after f) e
