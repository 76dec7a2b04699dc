-- ===== src/Messages/Frames.antt =====
-- tlslite/messages.py: the header of a handshake message, and the length check around its body.
use tls_dvnizk.Base.{
  ℕ, ◌+◌, ◌-◌, ◌≤◌, ◌≡◌, refl, sym, ap, ◌∙◌, [], ◌++◌, length, length-append, Option, none, some,
  Bool, false, if◌then◌else◌, Result, ok, Error, decode_error, raise_if, ◌==◌, Method, pure, modify,
  ◌>>=◌, ◌>>◌, arith,
}
use tls_dvnizk.Base.Bytes.{Bytes, be_bytes}
use tls_dvnizk.Codec.Writer.{Writer, empty_writer, extend, add}
use tls_dvnizk.Codec.Parser.{
  Parser, advance, get_fix_bytes, get_remaining_length, start_length_check, stop_length_check,
  at_length_check,
}
use tls_dvnizk.Codec.Writing.{Fits, extend-extend, extend_nil, add-Fits, add_var_bytes-Fits}
use tls_dvnizk.Codec.Reading.{
  IsAt, advance-IsAt, two_steps, get_fix_bytes_at, unread_length, after_number,
}
use tls_dvnizk.Codec.Coded.{Coded, nothing_more-IsAt}
use tls_dvnizk.Codec.LengthChecks.{not_done, is_done, checked, checked-IsAt, start_lem, stop_lem}
use tls_dvnizk.Codec.Endings.{something_left}
use tls_dvnizk.Codec.Nested.{append_writer}
use tls_dvnizk.Extensions.Shapes.{written}

-- `postWrite`
unfoldable pub post_write : ℕ → Result (Unit {0}) × Writer → Result Bytes
post_write type body = written ((add type 1 >> append_writer 3 body) empty_writer)

-- `startLengthCheck(3)`, what the class reads, `stopLengthCheck()`
unfoldable pub within {ℓ} : {A : Type ℓ} → Method Parser A → Method Parser A
within r = do start_length_check 3; v ← r; stop_length_check; pure v

-- `if not p.atLengthCheck():` with None otherwise.
unfoldable pub unless_done {ℓ} : {A : Type ℓ} → Method Parser A → Method Parser (Option A)
unless_done r = do done ← at_length_check; if done then pure none else (r >>= λ v. pure (some v))

-- A parser whose length check ends where this many bytes do.
abbrev pub IsChecked : Parser → ℕ → Type 0
IsChecked p n = (p.index_check ≤ p.index) × (p.index + n ≡ p.index_check + p.length_check)

-- The format of a body: it stands at the end of what is read, and of the length check.
pub record Framed {ℓ} {A : Type ℓ} (m : Method Writer (Unit {0})) (r : Method Parser A) (v : A)
    : Type ℓ where
  pub bytes : Bytes
  pub writes : (w : Writer) → m w ≡ (ok tt, extend bytes w)
  pub reads :
      (p : Parser)
      → IsAt p bytes
      → IsChecked p (length bytes)
      → r p ≡ (ok v, advance (length bytes) p)

module _ {ℓ} {A : Type ℓ} (m : Method Writer (Unit {0})) (r : Method Parser A) (v : A) where
  unfoldable pub framed_of : Coded m r v → Framed m r v
  framed_of c = record {
    bytes = c.bytes;
    writes = c.writes;
    reads = λ p at check. c.reads p [] (nothing_more-IsAt p c.bytes at);
  }

  after_frame :
      (bs : Bytes) (p : Parser)
      → stop_length_check (advance (length bs) (checked (length bs) p))
        ≡ (ok tt, advance (length bs) (checked (length bs) p))
  after_frame bs p = stop_lem p (length bs)

  -- The message that `postWrite` gives.
  pub post_write_lem :
      (type : ℕ) (f : Framed m r v)
      → Fits 1 type
      → Fits 3 (length f.bytes)
      → post_write type (m empty_writer)
        ≡ ok (be_bytes 1 type ++ (be_bytes 3 (length f.bytes) ++ f.bytes))
  unfolding post_write
  post_write_lem type f fits fits' =
      rw
        (
          f.writes empty_writer,
          add-Fits type 1 empty_writer fits,
          add_var_bytes-Fits f.bytes 3 (extend (be_bytes 1 type) empty_writer) fits',
        )
        refl

  -- What is read of it.
  pub within_lem :
      (f : Framed m r v) (p : Parser)
      → Fits 3 (length f.bytes)
      → IsAt p (be_bytes 3 (length f.bytes) ++ f.bytes)
      → (within r p).0 ≡ ok v
  unfolding within
  within_lem f p fits at =
      let start : Parser = checked (length f.bytes) (advance 3 p) in
      rw
        (
          start_lem p 3 (length f.bytes) f.bytes fits at,
          f.reads start
              (checked-IsAt (advance 3 p) (length f.bytes) f.bytes
                (after_number p 3 (length f.bytes) f.bytes at))
              (omega arith, omega arith),
          after_frame f.bytes (advance 3 p),
        )
        refl

module _ {ℓ κ} {A : Type ℓ} {B : Type κ} (m n : Method Writer (Unit {0})) (r : Method Parser A)
    (k : A → Method Parser B) (v : A) (u : B) where
  unfoldable pub framed_then : Coded m r v → Framed n (k v) u → Framed (m >> n) (r >>= k) u
  framed_then c d = record {
    bytes = c.bytes ++ d.bytes;
    writes = λ w.
        rw (c.writes w, d.writes (extend c.bytes w))
          (ap (λ (x : Writer). (ok tt, x)) (extend-extend w c.bytes d.bytes));
    reads = λ p at check.
        rw
          (
            c.reads p d.bytes at,
            d.reads (advance (length c.bytes) p) (advance-IsAt p c.bytes d.bytes at)
                (omega (arith, check.0), omega (arith, check.1, length-append c.bytes d.bytes)),
          )
          (ap (λ (q : Parser). (ok u, q))
            (two_steps (length c.bytes) (length d.bytes) (length (c.bytes ++ d.bytes)) p
              (omega (arith, length-append c.bytes d.bytes))));
  }

module _ {ℓ κ} {A : Type ℓ} {B : Type κ} (m : Method Writer (Unit {0})) (r : Method Parser A)
    (f : Option A → B) where
  -- A part at the end that may be missing, where it is there.
  pub done_or :
      (v : A) (c : Coded m r v)
      → 1 ≤ length c.bytes
      → Framed m (unless_done r >>= λ x. pure (f x)) (f (some v))
  unfolding unless_done
  done_or v c h = record {
    bytes = c.bytes;
    writes = c.writes;
    reads = λ p at check.
        rw
          (
            not_done p (length c.bytes) (check.0) (check.1) h,
            c.reads p [] (nothing_more-IsAt p c.bytes at),
          )
          refl;
  }

  -- The same where it is not.
  pub done_nothing : Framed (pure tt) (unless_done r >>= λ x. pure (f x)) (f none)
  unfolding unless_done
  done_nothing = record {
    bytes = [];
    writes = λ w. ap (λ (x : Writer). (ok tt, x)) (extend_nothing w);
    reads = λ p at check.
        rw (is_done p (check.0) (check.1))
          (ap (λ (i : ℕ). (ok (f none), record p { index = i })) (omega arith));
  }
    where
      extend_nothing : (w : Writer) → w ≡ extend [] w
      extend_nothing w = sym (extend_nil w)

module _ {ℓ κ} {A : Type ℓ} {B : Type κ} (m : Method Writer (Unit {0})) (r : Method Parser A)
    (f : A → B) (v : A) where
  pub framed_last : Framed m r v → Framed m (r >>= λ x. pure (f x)) (f v)
  framed_last c = record {
    bytes = c.bytes;
    writes = c.writes;
    reads = λ p at check. rw (c.reads p at check) refl;
  }

  -- A test of what was read, which does not hold.
  pub coded_test :
      (b : A → Bool) (e : Error)
      → b v ≡ false
      → Coded m r v
      → Coded m (r >>= λ x. raise_if (b x) e >>= λ _. pure (f x)) (f v)
  coded_test b e never c = record {
    bytes = c.bytes;
    writes = c.writes;
    reads = λ p rest at. rw (c.reads p rest at, never) refl;
  }

module _ {ℓ} {A : Type ℓ} (m : Method Writer (Unit {0})) (r : Method Parser A) (v : A) where
  -- A test before what is read, which does not hold.
  pub framed_test :
      (b : Bool) (e : Error) → b ≡ false → Framed m r v → Framed m (raise_if b e >>= λ _. r) v
  framed_test b e never c = record {
    bytes = c.bytes;
    writes = c.writes;
    reads = λ p at check. rw never (c.reads p at check);
  }

  -- A test before what is written and read, which does not hold.
  pub coded_tests :
      (b b' : Bool) (e e' : Error)
      → b ≡ false
      → b' ≡ false
      → Coded m r v
      → Coded (raise_if b e >> m) (raise_if b' e' >>= λ _. r) v
  coded_tests b b' e e' never never' c = record {
    bytes = c.bytes;
    writes = λ w. rw never (c.writes w);
    reads = λ p rest at. rw never' (c.reads p rest at);
  }

  -- A test before what is written, which does not hold.
  pub coded_checked :
      (b : Bool) (e : Error) → b ≡ false → Coded m r v → Coded (raise_if b e >> m) r v
  coded_checked b e never c = record {
    bytes = c.bytes;
    writes = λ w. rw never (c.writes w);
    reads = c.reads;
  }

-- All that is left in the parser.
pub rest_framed :
    (bs : Bytes) → Framed (modify (extend bs)) (get_remaining_length >>= get_fix_bytes) bs
unfolding get_remaining_length
rest_framed bs = record {
  bytes = bs;
  writes = λ w. refl;
  reads = λ p at check.
      ap (λ (n : ℕ). get_fix_bytes n p) (left p at)
      ∙ get_fix_bytes_at p bs [] (nothing_more-IsAt p bs at);
}
  where
    left : (p : Parser) → IsAt p bs → length p.buffer - p.index ≡ length bs
    left p at = omega (arith, unread_length p bs at)

-- A test that something is left in the parser.
pub some_left_framed {ℓ} :
    {A : Type ℓ} (m : Method Writer (Unit {0})) (r : Method Parser A) (v : A) (f : Framed m r v)
    → 1 ≤ length f.bytes
    → Framed m (get_remaining_length >>= λ left. raise_if (left == 0) decode_error >>= λ _. r) v
unfolding get_remaining_length
some_left_framed m r v f h = record {
  bytes = f.bytes;
  writes = f.writes;
  reads = λ p at check. rw (something_left p f.bytes h at) (f.reads p at check);
}
