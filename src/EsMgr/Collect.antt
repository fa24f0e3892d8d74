-- ===== src/EsMgr/Collect.antt =====
-- What filling the seed buffer, esdm/esdm_es_mgr.c, touches.
use esdm.Base.{ℕ, Bool, not, ◌&&◌, List, [], ◌∷◌, inl, inr, Bool-cases, arith, ltb}
use esdm.System.{Sys, Platform, Source, EntropyEs, EntropyBuf}
use esdm.AuxPool.Frame.{
  SameCore, SameCore-refl, SameCore-trans, notify_need_entropy-SameCore, aux_get_backtrack-SameCore,
}
use esdm.EsMgr.{get_ents, fill_seed_buffer, avail_entropy, reseed_minimum}

module _ {X D H : Type 0} where
  ext-SameCore : (x : X) (s : Sys X D H) → SameCore s (record s { ext = x })
  ext-SameCore x s = ground arith

module _ {X D H : Type 0} (p : Platform X D H) where
  pub get_ents-SameCore :
      (srcs : List (Source X)) (es : List EntropyEs) (bits : ℕ) (s : Sys X D H)
      → SameCore s (get_ents p srcs es bits s).1
  unfolding get_ents
  get_ents-SameCore [] [] bits s = SameCore-refl s
  get_ents-SameCore (src ∷ srcs) [] bits s = SameCore-refl s
  get_ents-SameCore [] (e ∷ es) bits s = aux_get_backtrack-SameCore p e bits s
  get_ents-SameCore (src ∷ srcs) (e ∷ es) bits s =
      SameCore-trans (ext-SameCore _ s) (get_ents-SameCore srcs es bits _)

  pub fill_seed_buffer-SameCore :
      (eb : EntropyBuf) (bits : ℕ) (force : Bool) (s : Sys X D H)
      → SameCore s (fill_seed_buffer p eb bits force s).1
  unfolding fill_seed_buffer
  fill_seed_buffer-SameCore eb bits force s =
      elim (Bool-cases
        (not force && (s.state.fully_seeded && ltb (avail_entropy p s) (reseed_minimum p s)))) [
          | inl e ↦ rw (e, fill_seed_buffer) (notify_need_entropy-SameCore s)
          | inr e ↦
              rw (e, fill_seed_buffer)
                (SameCore-trans (get_ents-SameCore p.sources eb.entropy_es bits s)
                  (notify_need_entropy-SameCore _))
        ]
