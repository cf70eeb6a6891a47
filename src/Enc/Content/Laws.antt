-- ===== src/Enc/Content/Laws.antt =====
-- What `_decrypt_content` does with a key at hand.
use mathlib.Core.Path.{subst}
use lavender.Base.{◌^◌, ◌<◌, ◌≡◌, refl, ap, ◌∙◌, Bool, true}
use lavender.Base.{Bytes, some, All, ◌⊎◌, inl, inr}
use lavender.Base.{length, take}
use lavender.Zip.Crc.{calculate_crc}
use lavender.Cipher.Des.Stream.Whole.{IsByte}
use lavender.Cipher.InPlace.DesLaws.{over}
use lavender.Enc.{
  EncStream, impl_of, Status, success, failure, einval, eacces, EncContext, enc_prepare, enc_free,
  enc_verify, enc_decrypt,
}
use lavender.Enc.Content.{Platform, key_size, use_key, open_content, verify_content, save_if_asked}
use lavender.Enc.Content.Streams.{
  Fits, refused_key, right_key, not_prepared, prepared, enc_prepare-Prepared,
}
use lavender.Enc.Content.Opened.{SameContent, Opened, set_size-Opened}

-- A run whose checksum is right opens the content.
pub use_key-opens :
    {W : Type 0} (p : Platform W) (load_key : Bool) (enc : EncContext) (w : W) (e d : EncStream)
    (f : EncStream × Bool) (out : Bytes)
    → length enc.content ≡ enc.size
    → enc.size < 2 ^ 31
    → enc_prepare p.memory enc.enc_stream enc.cipher enc.content enc.size enc.key
        (key_size enc.cipher)
      ≡ some (e, true)
    → enc_verify e enc.crc32 ≡ some true
    → enc_decrypt e ≡ some (d, true, over out enc.content)
    → enc_free d ≡ some f
    → f.0.stream.data_length ≡ length out
    → Fits (impl_of enc.cipher) (length out) enc.size
    → calculate_crc out ≡ enc.crc32
    → (opened : EncContext) × (w' : W) × (use_key p load_key enc w ≡ some (success 0, opened, w'))
      × (opened.size ≡ length out)
      × (take opened.size opened.content ≡ out)
      × Opened enc opened
unfolding use_key verify_content open_content
use_key-opens p load_key enc w e d f out whole below run checked decrypted freed size fits same =
    let enc' = record enc { enc_stream = e } in
    let (opened, sized, ends, text, facts) =
      set_size-Opened enc' f.0 out whole below size same enc.cipher refl fits in
    (
      opened,
      save_if_asked p load_key enc' w,
      rw (run, checked, decrypted, freed, sized) refl,
      ends,
      text,
      record {
        checksum = facts.checksum;
        same_length = facts.same_length;
        again = facts.again;
        known = facts.known;
        same_size = facts.same_size;
      },
    )

-- The content stays, and an error says why.
abbrev pub Refused : {W : Type 0} → EncContext → Status × EncContext × W → Type 0
Refused enc r = ((r.0 ≡ failure einval) ⊎ (r.0 ≡ failure eacces)) × SameContent enc r.1

-- `_decrypt_content` with a key at hand ends, whatever the key, the content and the cipher are, and reads and
-- writes nothing outside its buffers: either it gives EINVAL or EACCES and the content is as before; or it
-- gives zero, the content has the checksum of the context up to its new size, and `enc_access_content` over
-- the same memory finds it decrypted, with the same size.
pub use_key-Opened :
    {W : Type 0} (p : Platform W) (load_key : Bool) (enc : EncContext) (w : W)
    → All IsByte enc.content
    → length enc.content ≡ enc.size
    → enc.size < 2 ^ 31
    → length enc.key ≡ 16
    → (r : Status × EncContext × W) × (use_key p load_key enc w ≡ some r)
      × (Refused enc r ⊎ ((r.0 ≡ success 0) × Opened enc r.1))
unfolding use_key verify_content open_content
use_key-Opened {W} p load_key enc w bytes whole below key_room =
    elim (enc_prepare-Prepared p.memory enc.enc_stream enc.content enc.key enc.size enc.crc32 bytes
      whole key_room enc.cipher) [
        | not_prepared e run ↦ (
          (failure einval, record enc { enc_stream = e }, w),
          rw run refl,
          inl (
            inl refl,
            record {
              cipher = refl;
              provider = refl;
              parameter = refl;
              content = refl;
              size = refl;
              crc32 = refl;
              key_room = refl;
            },
          ),
        )
        | prepared e run same_content same_length keyed ↦ elim keyed [
          | refused_key f checked freed ↦ (
            (failure eacces, record enc { enc_stream = f.0 }, w),
            rw (run, checked, freed) refl,
            inl (
              inr refl,
              record {
                cipher = refl;
                provider = refl;
                parameter = refl;
                content = refl;
                size = refl;
                crc32 = refl;
                key_room = refl;
              },
            ),
          )
          | right_key d f out checked decrypted freed size fits same ↦
              let (opened, w', opens, _, text, facts) =
                use_key-opens p load_key enc w e d f out whole below run checked
                  (decrypted ∙ ap (λ (t : Bytes). some (d, true, over out t)) same_content) freed
                  size (subst (Fits (impl_of enc.cipher) (length out)) same_length fits) same in
              ((success 0, opened, w'), opens, inr (refl, facts))
        ]
      ]
