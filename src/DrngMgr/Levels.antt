-- ===== src/DrngMgr/Levels.antt =====
-- Bounds on the entropy that a seed buffer holds, under the laws of the entropy sources.
use esdm.Base.{
  ℕ, suc, ◌%◌, ◌+◌, ◌*◌, ◌≤◌, ◌<◌, Bool, not, ◌&&◌, List, [], ◌∷◌, ◌≡◌, refl, inl, inr, Bool-cases,
  arith, ltb, length, All, ap,
}
use esdm.Config.{Settings}
use esdm.System.{Sys, Platform, Source, EntropyEs, EntropyBuf}
use esdm.AuxPool.{aux_get_backtrack, security_strength, get_seed_entropy_osr}
use esdm.AuxPool.Accounting.{aux_get_pool-le}
use esdm.EsMgr.{
  get_ents, fill_seed_buffer, avail_entropy, reseed_minimum, clear_bits, bits_of, sum_u32,
  entropy_rate_eb,
}
use esdm.DrngMgr.{count_delivered}

-- Every source reports at most 1024 bits, and there are at most the seven of the build options.
pub record BoundedSources {X D H : Type 0} (p : Platform X D H) : Type 0 where
  pub few : length p.sources ≤ 7
  pub digest : p.hash_digestsize ≤ 64
  pub bounded :
      All
        (λ (src : Source X).
          (c : Settings) (x : X) (es : EntropyEs) (bits : ℕ) (full : Bool)
          → (src.get_ent c x es bits full).0.e_bits ≤ 1024)
        p.sources

abbrev pub Small : List EntropyEs → Type 0
Small = All (λ (es : EntropyEs). es.e_bits ≤ 1024)

sum_u32_bounds :
    (acc : ℕ) (es : List EntropyEs)
    → Small es
    → acc + 1024 * length es < 4294967296
    → (acc + count_delivered (bits_of es) ≤ sum_u32 acc (bits_of es))
      × (sum_u32 acc (bits_of es) ≤ acc + 1024 * length es)
unfolding sum_u32 count_delivered
sum_u32_bounds acc [] h fits = omega arith
sum_u32_bounds acc (e ∷ es) h fits =
    ground (arith, sum_u32_bounds ((acc + e.e_bits) % 4294967296) es)

-- The level of a buffer is at least the number of sources that delivered.
pub entropy_rate_eb_bounds :
    (eb : EntropyBuf)
    → Small eb.entropy_es
    → length eb.entropy_es ≤ 8
    → (count_delivered (bits_of eb.entropy_es) ≤ entropy_rate_eb eb) × (entropy_rate_eb eb ≤ 8192)
unfolding entropy_rate_eb
entropy_rate_eb_bounds eb h few = omega (arith, sum_u32_bounds 0 eb.entropy_es h (omega arith))

module _ {X D H : Type 0} (p : Platform X D H) (b : BoundedSources p) where
  aux_get_backtrack-le :
      (es : EntropyEs) (bits : ℕ) (s : Sys X D H) → (aux_get_backtrack p es bits s).0.e_bits ≤ 1024
  unfolding aux_get_backtrack
  aux_get_backtrack-le es bits s = omega (arith, aux_get_pool-le p es.e bits s b.digest)

  get_ents-Small :
      (srcs : List (Source X)) (es : List EntropyEs) (bits : ℕ) (s : Sys X D H)
      → All
          (λ (src : Source X).
            (c : Settings) (x : X) (es : EntropyEs) (bits : ℕ) (full : Bool)
            → (src.get_ent c x es bits full).0.e_bits ≤ 1024)
          srcs
      → Small es
      → Small (get_ents p srcs es bits s).0 × (length (get_ents p srcs es bits s).0 ≡ length es)
  unfolding get_ents
  get_ents-Small [] [] bits s k h = (tt, refl)
  get_ents-Small (src ∷ srcs) [] bits s k h = (tt, refl)
  get_ents-Small [] (e ∷ es) bits s k h = ((aux_get_backtrack-le e bits s, h.1), refl)
  get_ents-Small (src ∷ srcs) (e ∷ es) bits s k h =
      let rest = get_ents-Small srcs es bits _ k.1 h.1 in
      ((k.0 s.settings s.ext e bits s.state.fully_seeded, rest.0), ap suc rest.1)

  clear_bits-Small :
      (es : List EntropyEs) → Small (clear_bits p es) × (length (clear_bits p es) ≡ length es)
  unfolding clear_bits
  clear_bits-Small [] = (tt, refl)
  clear_bits-Small (e ∷ es) =
      let rest = clear_bits-Small es in ((omega arith, rest.0), ap suc rest.1)

  -- A collection keeps the buffer small, and its number of entries.
  pub fill_seed_buffer-Small :
      (eb : EntropyBuf) (bits : ℕ) (force : Bool) (s : Sys X D H)
      → Small eb.entropy_es
      → let (eb', s') = fill_seed_buffer p eb bits force s in
        Small eb'.entropy_es × (length eb'.entropy_es ≡ length eb.entropy_es)
  unfolding fill_seed_buffer
  fill_seed_buffer-Small eb bits force s h =
      elim (Bool-cases
        (not force && (s.state.fully_seeded && ltb (avail_entropy p s) (reseed_minimum p s)))) [
          | inl e ↦ rw (e, fill_seed_buffer) (clear_bits-Small eb.entropy_es)
          | inr e ↦
              rw (e, fill_seed_buffer) (get_ents-Small p.sources eb.entropy_es bits s b.bounded h)
        ]

module _ {X D H : Type 0} where
  pub get_seed_entropy_osr-le : (full : Bool) (s : Sys X D H) → get_seed_entropy_osr full s ≤ 384
  unfolding get_seed_entropy_osr security_strength
  get_seed_entropy_osr-le full s = ground arith
