-- ===== src/Cipher/Des/Stream/At.antt =====
-- `des_at` with its cache, and `des_verify`, against what `des_decrypt` writes.
use lavender.Base.{ℕ, suc, ◌+◌, ◌-◌, ◌*◌, ◌/◌, ◌≤◌, ◌<◌, ◌≡◌, refl, ap, sym, ◌∙◌}
use lavender.Base.{Bytes, List, [], ◌∷◌, ◌++◌, some, length, drop, arith}
use lavender.Base.{get_or, take, ◌==◌, ◌⊎◌, inl, inr, Bool-cases, length-append, ==_iff}
use lavender.Base.{length-take_le, get_or-append_take}
use mathlib.Core.List.{append-nil}
use lavender.Cipher.Stream.{Stream, Context}
use lavender.Cipher.Des.Stream.{from_bytes, to_bytes, get_pt, fill_cache, des_at, cached_byte}
use lavender.Cipher.Des.Stream.Blocks.{
  bytes_of, from_bytes-bytes_of, length-bytes_of, cached_byte-bytes_of,
}
use lavender.Cipher.Des.Stream.Plain.{
  plain_blocks, IsSealed, padding, plain_text, last_block, all_blocks, pt_of, get_or-plain_blocks,
  length-plain_blocks, plain_blocks-append,
}
use lavender.Cipher.Des.Stream.Decrypt.{bytes_of-append, bytes_of_cons}

module _ {iv : ℕ} {init : List ℕ} {final : ℕ} {c : Context} {stream : Stream}
    (h : IsSealed iv init final c stream) where
  abbrev pub cts : List ℕ
  cts = init ++ final ∷ []

  abbrev pub pts : List ℕ
  pts = all_blocks iv init final c stream

  -- The cache is empty, or holds the plain block of its position.
  abbrev pub Cached : Context → Type 0
  Cached cc =
      (cc.at_pos ≡ 0)
      ⊎ ((k : ℕ) × (k < length cts) × (cc.at_pos ≡ 8 + k * 8) × (cc.at_pt ≡ get_or pts k 0))

  -- The stream, but for its cache.
  pub record Inv (t : Stream) : Type 0 where
    pub cache : Context
    pub same_content : t.content ≡ stream.content
    pub same_key_length : t.key_length ≡ stream.key_length
    pub has_cache : t.context ≡ some cache
    pub same_subkeys : cache.subkeys ≡ c.subkeys
    pub cached : Cached cache

  pub load_at :
      (k : ℕ)
      → k < suc (length cts)
      → from_bytes (drop (8 * k) stream.content) ≡ some (get_or (iv ∷ cts) k 0)
  load_at k p =
      ap (λ (t : Bytes). from_bytes (drop (8 * k) t)) h.content_is
      ∙ from_bytes-bytes_of (iv ∷ cts) k h.blocks p

  -- The cache at the place of block `k` holds this block, whether it was there or is read now.
  fill_cache_lem :
      (t : Stream) (inv : Inv t) (k : ℕ)
      → k < length cts
      → (c' : Context) × (fill_cache t inv.cache (8 + k * 8) ≡ some c')
        × (c'.subkeys ≡ c.subkeys)
        × (c'.at_pt ≡ get_or pts k 0)
        × Cached c'
  unfolding fill_cache
  fill_cache_lem t inv k p = elim (Bool-cases (inv.cache.at_pos == 8 + k * 8)) [
    | inl hit ↦ (
      inv.cache,
      rw hit refl,
      inv.same_subkeys,
      held inv.cache inv.cached ((==_iff _ _).0 hit),
      inv.cached,
    )
    | inr miss ↦ (
      record inv.cache {
        at_pos = 8 + k * 8;
        at_pt = get_pt inv.cache.subkeys t.key_length (get_or (iv ∷ cts) k 0) (get_or cts k 0);
      },
      rw miss (simp (first, second)),
      inv.same_subkeys,
      fresh,
      inr (k, p, refl, fresh),
    )
  ]
    where
      held : (cc : Context) → Cached cc → cc.at_pos ≡ 8 + k * 8 → cc.at_pt ≡ get_or pts k 0
      held cc (inl e) at = absurd (omega arith)
      held cc (inr (j, q, e, v)) at =
          let same : j ≡ k = omega arith in v ∙ ap (λ (m : ℕ). get_or pts m 0) same

      first : from_bytes (drop (8 + k * 8 - 8) t.content) ≡ some (get_or (iv ∷ cts) k 0)
      first =
          let e : 8 + k * 8 - 8 ≡ 8 * k = omega arith in
          rw (e, inv.same_content) (load_at k (omega arith))

      second : from_bytes (drop (8 + k * 8) t.content) ≡ some (get_or cts k 0)
      second =
          let e : 8 + k * 8 ≡ 8 * suc k = omega arith in
          rw (e, inv.same_content) (load_at (suc k) (omega arith))

      fresh :
          get_pt inv.cache.subkeys t.key_length (get_or (iv ∷ cts) k 0) (get_or cts k 0)
          ≡ get_or pts k 0
      fresh =
          rw (inv.same_subkeys, inv.same_key_length)
            (sym (get_or-plain_blocks (pt_of iv init final c stream) iv cts k p))

  -- Whatever the cache holds, `des_at` gives byte `i` of the plain blocks.
  pub des_at-byte :
      (t : Stream) (i : ℕ)
      → Inv t
      → i < 8 * length cts
      → (s' : Stream) × (des_at t i ≡ some (get_or (bytes_of pts) i 0, s')) × Inv s'
  unfolding des_at
  des_at-byte t i inv p =
      let (c', filled, keys, block, holds) = fill_cache_lem t inv (i / 8) (omega arith) in
      let many : length pts ≡ length cts =
        length-plain_blocks (pt_of iv init final c stream) iv cts in
      let byte : cached_byte c'.at_pt i ≡ get_or (bytes_of pts) i 0 =
        ap (λ (n : ℕ). cached_byte n i) block ∙ cached_byte-bytes_of pts i (omega arith) in
      (
        record t { context = some c' },
        simp (inv.has_cache, filled, byte),
        record {
          cache = c';
          same_content = inv.same_content;
          same_key_length = inv.same_key_length;
          has_cache = refl;
          same_subkeys = keys;
          cached = holds;
        },
      )

  plain_text_cut :
      bytes_of pts
      ≡ bytes_of (plain_blocks (pt_of iv init final c stream) iv init)
        ++ to_bytes (last_block iv init final c stream)
  plain_text_cut =
      let pt = pt_of iv init final c stream in
      let last = last_block iv init final c stream in
      ap bytes_of (plain_blocks-append pt iv init final)
      ∙ bytes_of-append (plain_blocks pt iv init) (last ∷ [])
      ∙ ap (λ (t : Bytes). bytes_of (plain_blocks pt iv init) ++ t)
          (bytes_of_cons last [] ∙ unfold bytes_of in append-nil (to_bytes last))

  pub length-plain_text :
      padding iv init final c stream ≤ 8
      → length (plain_text iv init final c stream)
        ≡ 8 * (1 + length init) - padding iv init final c stream
  unfolding to_bytes
  length-plain_text fits =
      let pt = pt_of iv init final c stream in
      let cut = 8 - padding iv init final c stream in
      let last = to_bytes (last_block iv init final c stream) in
      omega (
        arith,
        length-append (bytes_of (plain_blocks pt iv init)) (take cut last),
        length-bytes_of (plain_blocks pt iv init),
        length-plain_blocks pt iv init,
        length-take_le cut last (omega arith),
      )

  pub gives_plain_text :
      padding iv init final c stream ≤ 8
      → (t : Stream) (j : ℕ) → Inv t
      → j < length (plain_text iv init final c stream)
      → (s' : Stream) × (des_at t j ≡ some (get_or (plain_text iv init final c stream) j 0, s'))
        × Inv s'
  gives_plain_text fits t j inv p =
      let short = length-plain_text fits in
      let many : length cts ≡ length init + 1 = length-append init (final ∷ []) in
      let (s', run, inv') = des_at-byte t j inv (omega arith) in
      let same : get_or (bytes_of pts) j 0 ≡ get_or (plain_text iv init final c stream) j 0 =
        ap (λ (b : Bytes). get_or b j 0) plain_text_cut
        ∙ get_or-append_take (bytes_of (plain_blocks (pt_of iv init final c stream) iv init))
            (to_bytes (last_block iv init final c stream)) (8 - padding iv init final c stream) j 0
            p in
      (s', run ∙ ap (λ (b : ℕ). some (b, s')) same, inv')
