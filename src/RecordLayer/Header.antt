-- ===== src/RecordLayer/Header.antt =====
-- tlslite/messages.py: `RecordHeader3` and `RecordHeader2`.
use Prim.Native.Nat.{bit_and, bit_or}
use tls_dvnizk.Base.{
  ℕ, ◌*◌, ◌/◌, ◌%◌, ◌^◌, Bool, true, false, ◌&&◌, ◌||◌, not, leb, ◌==◌, if◌then◌else◌, Method, pure,
  raise_if, ◌>>=◌, ◌>>◌, value_error,
}
use tls_dvnizk.Codec.Writer.{Writer, add}
use tls_dvnizk.Codec.Parser.{Parser, get}
use tls_dvnizk.ConstantTime.Cbc.{Version}
use tls_dvnizk.RecordLayer.State.{handshake}

-- Both classes in one: `padding` and `security_escape` are fields of `RecordHeader2` only.
pub record Header : Type 0 where
  pub type : ℕ
  pub version : Version
  pub len : ℕ
  pub ssl2 : Bool
  pub padding : ℕ
  pub security_escape : Bool

-- `RecordHeader3.create`
unfoldable pub create3 : Version → ℕ → ℕ → Header
create3 version type len = record {
  type = type;
  version = version;
  len = len;
  ssl2 = false;
  padding = 0;
  security_escape = false;
}

-- `RecordHeader3.write`
unfoldable pub write3 : Header → Method Writer (Unit {0})
write3 h = do add h.type 1; add (h.version.0) 1; add (h.version.1) 1; add h.len 2

-- `RecordHeader3.parse`
unfoldable pub parse3 : Method Parser Header
parse3 = do
  type ← get 1
  major ← get 1
  minor ← get 1
  len ← get 2
  pure (create3 (major, minor) type len)

-- `RecordHeader2.create`
unfoldable pub create2 : ℕ → ℕ → Bool → Header
create2 len padding security_escape = record {
  type = 0;
  version = (0, 0);
  len = len;
  ssl2 = true;
  padding = padding;
  security_escape = security_escape;
}

-- `RecordHeader2.write`
unfoldable pub write2 : Header → Method Writer (Unit {0})
write2 h =
    let short_header = not (not (h.padding == 0) || h.security_escape) in
    let marked = if short_header then bit_or 0 128 else 0 in
    let escaped = if h.security_escape then bit_or marked 64 else marked in
    raise_if ((short_header && leb 32768 h.len) || (not short_header && leb 16384 h.len))
      value_error
    >> add (bit_or escaped (h.len / 2 ^ 8)) 1
    >> add (h.len % 2 ^ 8) 1
    >> (if short_header then pure tt else add h.padding 1)

abbrev parsed2 : ℕ → ℕ → Bool → Header
parsed2 len padding security_escape = record {
  type = handshake;
  version = (2, 0);
  len = len;
  ssl2 = true;
  padding = padding;
  security_escape = security_escape;
}

-- `RecordHeader2.parse`
unfoldable pub parse2 : Method Parser Header
parse2 = do
  first_byte ← get 1
  second_byte ← get 1
  if not (bit_and first_byte 128 == 0)
      then pure (parsed2 (bit_or (bit_and first_byte 127 * 2 ^ 8) second_byte) 0 false)
      else (get 1 >>= λ padding. pure (
          parsed2 (bit_or (bit_and first_byte 63 * 2 ^ 8) second_byte) padding
            (not (bit_and first_byte 64 == 0))))
