-- ===== src/Enc/Session/Ready.antt =====
-- What a session starts from and relies on, and what keeps it.
use mathlib.Core.Path.{subst}
use lavender.Base.{ℕ, ◌^◌, ◌≤◌, ◌<◌, ◌≡◌, refl, ap, sym, ◌∙◌}
use lavender.Base.{Bytes, All, arith, ◌⊎◌, inl, inr}
use lavender.Base.{length}
use lavender.Cipher.Des.Stream.Whole.{IsByte}
use lavender.Enc.{EncCipher, xor, des, tdes, State, Status, success, failure, Errno, EncContext}
use lavender.Enc.Content.{Platform, key_size}
use lavender.Enc.Content.Opened.{SameContent, Opened}

-- The content is in memory whole, and the key has its buffer.
pub record IsReady (enc : EncContext) : Type 0 where
  pub bytes : All IsByte enc.content
  pub whole : length enc.content ≡ enc.size
  pub below : enc.size < 2 ^ 31
  pub key_room : length enc.key ≡ 16

-- What the session relies on: the store fills the buffer that it is given, and a provider changes its own
-- part of the context only.
pub record IsPlatform {W : Type 0} (p : Platform W) : Type 0 where
  pub load_size :
      (w : W) (name buffer : Bytes) → length (p.keys.load_state w name buffer).1 ≡ length buffer
  pub transforms :
      (n : ℕ) (enc : EncContext) (w : W) → SameContent enc ((p.providers n).transform enc w).1
  pub initializes :
      (n : ℕ) (enc : EncContext) (w : W) → SameContent enc ((p.providers n).initialize_key enc w).1

pub IsReady-SameContent :
    {enc enc' : EncContext} → IsReady enc → SameContent enc enc' → IsReady enc'
IsReady-SameContent ready same = record {
  bytes = subst (All IsByte) (sym same.content) ready.bytes;
  whole = ap length same.content ∙ ready.whole ∙ sym same.size;
  below = omega (arith, ready.below, same.size);
  key_room = same.key_room ∙ ready.key_room;
}

pub Opened-SameContent :
    {enc enc' opened : EncContext} → SameContent enc enc' → Opened enc' opened → Opened enc opened
Opened-SameContent same facts = record {
  checksum = facts.checksum ∙ same.crc32;
  same_length = facts.same_length ∙ ap length same.content;
  again = facts.again;
  known =
      rw (← same.cipher, ← same.provider, ← same.parameter, ← same.size, ← same.crc32) facts.known;
  same_size = facts.same_size;
}

pub Opened-state :
    {enc opened : EncContext} (s : State)
    → Opened enc opened
    → Opened enc (record opened { state = s })
Opened-state s facts = record {
  checksum = facts.checksum;
  same_length = facts.same_length;
  again = facts.again;
  known = facts.known;
  same_size = facts.same_size;
}

pub SameContent-state :
    {enc enc' : EncContext} (s : State)
    → SameContent enc enc'
    → SameContent enc (record enc' { state = s })
SameContent-state s same = record {
  cipher = same.cipher;
  provider = same.provider;
  parameter = same.parameter;
  content = same.content;
  size = same.size;
  crc32 = same.crc32;
  key_room = same.key_room;
}

pub same_trans : {a b c : EncContext} → SameContent a b → SameContent b c → SameContent a c
same_trans f g = record {
  cipher = g.cipher ∙ f.cipher;
  provider = g.provider ∙ f.provider;
  parameter = g.parameter ∙ f.parameter;
  content = g.content ∙ f.content;
  size = g.size ∙ f.size;
  crc32 = g.crc32 ∙ f.crc32;
  key_room = g.key_room ∙ f.key_room;
}

pub Status-cases : (s : Status) → ((n : ℕ) × (s ≡ success n)) ⊎ ((e : Errno) × (s ≡ failure e))
Status-cases (success n) = inl (n, refl)
Status-cases (failure e) = inr (e, refl)

pub key_size-fits : (cipher : EncCipher) → key_size cipher ≤ 16
key_size-fits xor = omega arith
key_size-fits des = omega arith
key_size-fits tdes = omega arith
