-- ===== src/Codec/Coded.antt =====
-- Formats: what `Writer` writes beside what `Parser` reads, put together from their parts.
use tls_dvnizk.Base.{
  ℕ, ◌≡◌, refl, sym, ap, subst, ◌∙◌, [], ◌++◌, append-nil, length, length-append, Result, ok, err,
  Method, pure, ◌>>=◌, ◌>>◌, continue, arith,
}
use tls_dvnizk.Base.Bytes.{Bytes}
use tls_dvnizk.Codec.Writer.{Writer, extend}
use tls_dvnizk.Codec.Parser.{Parser, advance}
use tls_dvnizk.Codec.Writing.{extend-extend, extend_nil}
use tls_dvnizk.Codec.Reading.{IsAt, advance-IsAt, regroup_IsAt, two_steps}

-- The method `m` writes certain bytes, and `r` reads the value `v` off them, whatever stands behind.
pub record Coded {ℓ} {A : Type ℓ} (m : Method Writer (Unit {0})) (r : Method Parser A) (v : A)
    : Type ℓ where
  pub bytes : Bytes
  pub writes : (w : Writer) → m w ≡ (ok tt, extend bytes w)
  pub reads :
      (p : Parser) (rest : Bytes) → IsAt p (bytes ++ rest) → r p ≡ (ok v, advance (length bytes) p)

-- The same where nothing stands behind, and the length check of the parser may be another one afterwards.
pub record Ends {ℓ} {A : Type ℓ} (m : Method Writer (Unit {0})) (r : Method Parser A) (v : A)
    : Type ℓ where
  pub bytes : Bytes
  pub writes : (w : Writer) → m w ≡ (ok tt, extend bytes w)
  pub reads : (p : Parser) → IsAt p bytes → (r p).0 ≡ ok v

module _ {ℓ κ} {A : Type ℓ} {B : Type κ} (m n : Method Writer (Unit {0})) (r : Method Parser A)
    (k : A → Method Parser B) (v : A) (u : B) where
  -- One after the other.
  unfoldable pub coded_then : Coded m r v → Coded n (k v) u → Coded (m >> n) (r >>= k) u
  coded_then c d = record {
    bytes = c.bytes ++ d.bytes;
    writes = λ w.
        rw (c.writes w, d.writes (extend c.bytes w))
          (ap (λ (x : Writer). (ok tt, x)) (extend-extend w c.bytes d.bytes));
    reads = λ p rest at.
        let first : IsAt p (c.bytes ++ (d.bytes ++ rest)) =
          regroup_IsAt p c.bytes d.bytes rest at in
        rw
          (
            c.reads p (d.bytes ++ rest) first,
            d.reads (advance (length c.bytes) p) rest
                (advance-IsAt p c.bytes (d.bytes ++ rest) first),
          )
          (ap (λ (q : Parser). (ok u, q))
            (two_steps (length c.bytes) (length d.bytes) (length (c.bytes ++ d.bytes)) p
              (omega (arith, length-append c.bytes d.bytes))));
  }

  unfoldable pub ends_then : Coded m r v → Ends n (k v) u → Ends (m >> n) (r >>= k) u
  ends_then c d = record {
    bytes = c.bytes ++ d.bytes;
    writes = λ w.
        rw (c.writes w, d.writes (extend c.bytes w))
          (ap (λ (x : Writer). (ok tt, x)) (extend-extend w c.bytes d.bytes));
    reads = λ p at.
        rw (c.reads p d.bytes at)
          (d.reads (advance (length c.bytes) p) (advance-IsAt p c.bytes d.bytes at));
  }

pub nothing_more-IsAt : (p : Parser) (bs : Bytes) → IsAt p bs → IsAt p (bs ++ [])
nothing_more-IsAt p bs at = subst (IsAt p) (sym (append-nil bs)) at

module _ {ℓ κ} {A : Type ℓ} {B : Type κ} (m : Method Writer (Unit {0})) (r : Method Parser A)
    (f : A → B) (v : A) where
  -- What was read is put into its place.
  unfoldable pub coded_last : Coded m r v → Coded m (r >>= λ x. pure (f x)) (f v)
  coded_last c = record {
    bytes = c.bytes;
    writes = c.writes;
    reads = λ p rest at. rw (c.reads p rest at) refl;
  }

  pub ends_last : Coded m r v → Ends m (r >>= λ x. pure (f x)) (f v)
  ends_last c = record {
    bytes = c.bytes;
    writes = c.writes;
    reads = λ p at. rw (c.reads p [] (nothing_more-IsAt p c.bytes at)) refl;
  }

  unfoldable pub ends_tail : Ends m r v → Ends m (r >>= λ x. pure (f x)) (f v)
  ends_tail e = record {
    bytes = e.bytes;
    writes = e.writes;
    reads = λ p at. result_of (r p) (e.reads p at);
  }
    where
      result_of : (s : Result A × Parser) → s.0 ≡ ok v → (continue s (λ x. pure (f x))).0 ≡ ok (f v)
      result_of (t, q) h = ap (λ (y : Result A). (continue (y, q) (λ x. pure (f x))).0) h

  -- What was read is put into its place, and the writer goes no further.
  pub coded_drop :
      {k : Method Writer (Unit {0})}
      → Coded m r v
      → ((w : Writer) → k w ≡ m w)
      → Coded k (r >>= λ x. pure (f x)) (f v)
  coded_drop c e = record {
    bytes = c.bytes;
    writes = λ w. e w ∙ c.writes w;
    reads = λ p rest at. rw (c.reads p rest at) refl;
  }

module _ {ℓ} {A : Type ℓ} (m : Method Writer (Unit {0})) (r : Method Parser A) (v : A) where
  pub ends_of : Coded m r v → Ends m r v
  ends_of c = record {
    bytes = c.bytes;
    writes = c.writes;
    reads =
        λ p at. ap (λ (x : Result A × Parser). x.0) (c.reads p [] (nothing_more-IsAt p c.bytes at));
  }

then_nothing : (r : Result (Unit {0}) × Writer) → r ≡ continue r (λ _. pure tt)
then_nothing (ok done, w) = refl
then_nothing (err e, w) = refl

-- A writer that does nothing at the end.
module _ {ℓ} {A : Type ℓ} (m : Method Writer (Unit {0})) (r : Method Parser A) (v : A) where
  unfoldable pub ends_only : Ends (m >> pure tt) r v → Ends m r v
  unfolding then_nothing
  ends_only e = record {
    bytes = e.bytes;
    writes = λ w. then_nothing (m w) ∙ e.writes w;
    reads = e.reads;
  }

pub coded_pure {ℓ} : {A : Type ℓ} (v : A) → Coded (pure tt) (pure v) v
coded_pure v = record {
  bytes = [];
  writes = λ w. ap (λ (x : Writer). (ok tt, x)) (sym (extend_nil w));
  reads = λ p rest at. ap (λ (q : Parser). (ok v, q)) (stay p);
}
  where
    stay : (p : Parser) → p ≡ advance 0 p
    stay p = ap (λ (i : ℕ). record p { index = i }) (omega arith)
