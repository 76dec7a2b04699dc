-- ===== src/Fragments/Message.antt =====
-- tlslite/messages.py: class `Message`, the bytes of a message or a part of it under their content type.
use tls_dvnizk.Base.{ℕ}
use tls_dvnizk.Base.Bytes.{Bytes}

pub record Message : Type 0 where
  pub content_type : ℕ
  pub data_bytes : Bytes

-- `Message.write`
unfoldable pub write : Message → Bytes
write msg = msg.data_bytes
