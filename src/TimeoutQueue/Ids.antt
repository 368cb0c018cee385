-- ===== src/TimeoutQueue/Ids.antt =====
-- The ids that `generateId` of `TC_TimeoutQueueNew` hands out.
use learn_tars.Base.{
  ℕ, zero, suc, ◌+◌, ◌-◌, ◌%◌, ◌<◌, ◌≡◌, refl, ◌≢◌, some, arith, ◌==◌, if◌then◌else◌,
}
use learn_tars.Base.Words.{u32_mod, add32}
use learn_tars.TimeoutQueue.{TimeoutQueue, next_id, generate_id}

-- The id after `u`, which skips 0 when the counter wraps.
unfoldable pub id_after : ℕ → ℕ
id_after u = if add32 u 1 == 0 then 1 else add32 u 1

next_id_lem : (u : ℕ) → u < u32_mod → next_id 2 u ≡ some (id_after u)
unfolding next_id id_after
next_id_lem u h = ground arith

id_after_range : (u : ℕ) → u < u32_mod → (0 < id_after u) × (id_after u < u32_mod)
unfolding id_after
id_after_range u h = ground arith

module _ {ℓ} {A : Type ℓ} where
  pub generate_id_lem :
      (q : TimeoutQueue A)
      → q.uniq_id < u32_mod
      → (generate_id q ≡ some (id_after q.uniq_id, record q { uniq_id = id_after q.uniq_id }))
        × (0 < id_after q.uniq_id)
        × (id_after q.uniq_id < u32_mod)
  unfolding generate_id
  generate_id_lem q h =
      let r = id_after_range q.uniq_id h in (rw (next_id_lem q.uniq_id h) refl, r.0, r.1)

-- The id that the last of `n` calls hands out.
pub ids : ℕ → ℕ → ℕ
ids zero u = u
ids (suc n) u = ids n (id_after u)

-- From an id on, the calls go round the 2^32 - 1 numbers other than 0.
ids_lem : (n u : ℕ) → 0 < u → u < u32_mod → ids n u ≡ (u - 1 + n) % (u32_mod - 1) + 1
unfolding ids id_after
ids_lem zero u h b = omega arith
ids_lem (suc n) u h b = ground (arith, ids_lem n (id_after u))

-- From a counter of 32 bits that is not 0, no two of 2^32 - 1 states in a row of the counter, each
-- the id handed out by one call, are the same.
pub ids_distinct :
    (m n u : ℕ) → 0 < u → u < u32_mod → m < n → n < m + (u32_mod - 1) → ids m u ≢ ids n u
ids_distinct m n u h b lt near e = omega (arith, ids_lem m u h b, ids_lem n u h b)
