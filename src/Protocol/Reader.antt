-- ===== src/Protocol/Reader.antt =====
-- The bounds-checked byte reader of protocol.rs. A method that may fail returns the reader that the
-- source's `&mut self` leaves, beside its value.
use signedpulse.Base.{
  ℕ, ◌+◌, ◌^◌, Bool, ◌==◌, leb, Result, ok, err, Bytes, length, drop, if◌then◌else◌, ℤ,
}
use signedpulse.Base
use signedpulse.Protocol.Words.{from_le, i64_of_bits}

pub data ProtocolError : Type 0 where
  truncated bad_magic trailing_bytes bad_client_id_hex : ProtocolError
  wrong_version unknown_type : ℕ → ProtocolError

pub record Reader : Type 0 where
  pub buf : Bytes
  pub pos : ℕ

abbrev pub Read : Type 0 → Type 0
Read A = Reader → Result ProtocolError (A × Reader)

infixl 5 ◌>>=◌
abbrev pub ◌>>=◌ : {A B : Type 0} → Read A → (A → Read B) → Read B
◌>>=◌ m f r = elim (m r) [ ok (a, r') ↦ f a r' | err e ↦ err e ]

abbrev pub pure : {A : Type 0} → A → Read A
pure a r = ok (a, r)

abbrev pub fail : {A : Type 0} → ProtocolError → Read A
fail e r = err e

unfoldable pub new : Bytes → Reader
new bytes = record { buf = bytes; pos = 0 }

-- `usize::MAX + 1`
abbrev pub usize_mod : ℕ
usize_mod = 2 ^ 64

unfoldable pub take : ℕ → Read Bytes
take n r =
    let end = r.pos + n in
    if leb usize_mod end
    then err truncated
    else if leb end (length r.buf)
    then ok (Base.take n (drop r.pos r.buf), record r { pos = end })
    else err truncated

-- One byte is its own little-endian value.
unfoldable pub u8 : Read ℕ
u8 = do b ← take 1; pure (from_le b)

unfoldable pub u16 : Read ℕ
u16 = do b ← take 2; pure (from_le b)

unfoldable pub u32 : Read ℕ
u32 = do b ← take 4; pure (from_le b)

unfoldable pub i64 : Read ℤ
i64 = do b ← take 8; pure (i64_of_bits (from_le b))

-- `array::<N>()`
unfoldable pub array : ℕ → Read Bytes
array n = take n

unfoldable pub is_empty : Reader → Bool
is_empty r = r.pos == length r.buf
