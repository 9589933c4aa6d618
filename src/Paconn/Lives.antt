-- ===== src/Paconn/Lives.antt =====
-- When an agent is in the manager's map, and how often its end is told to `cbClose`.
use sutil.Prelude.Text.{Bytes, text_eq, text_eq_refl}
use sutil.Prelude.Maps.{Dict, lookup, store, delete, lookup-store, lookup-delete, lookup-store_self}
use sutil.Paconn.Manager.{Life, added, ended, add_agent, live}
use sutil.Prelude.{
  ℕ, suc, ◌≡◌, refl, ◌≢◌, inl, inr, false, none, List, [], ◌∷◌, ◌++◌, arith, if◌then◌else◌,
  Option-cases, All, ◌+◌,
}

-- how often `cbClose` is called for an agent
unfoldable pub times : Bytes → List Bytes → ℕ
times id [] = 0
times id (j ∷ ids) = if text_eq j id then suc (times id ids) else times id ids

module _ {A : Type 0} where
  -- the part of a life that is not the end of `id`, or not about `id` at all
  abbrev pub NoEnd : Bytes → Life A → Type 0
  NoEnd id (added j a) = Unit
  NoEnd id (ended j) = text_eq j id ≡ false

  abbrev pub NotOf : Bytes → Life A → Type 0
  NotOf id (added j a) = text_eq j id ≡ false
  NotOf id (ended j) = text_eq j id ≡ false

  stays :
      (id : Bytes) (ls : List (Life A)) (agents : Dict A)
      → All (NoEnd id) ls
      → lookup id agents ≢ none
      → (lookup id (live ls agents).0 ≢ none) × (times id (live ls agents).1 ≡ 0)
  unfolding live times
  stays id [] agents h k = (k, refl)
  stays id (added j b ∷ ls) agents (h, hs) k =
      stays id ls (store j b agents) hs (ground (arith, lookup-store j id b agents))
  stays id (ended j ∷ ls) agents (h, hs) k = elim (Option-cases (lookup j agents)) [
    | inl e ↦ ground (arith, e, stays id ls agents hs k)
    | inr (b, e) ↦ ground (
      arith,
      e,
      h,
      stays id ls (delete j agents) hs (ground (arith, h, lookup-delete j id agents)),
    )
  ]

  absent :
      (id : Bytes) (ls : List (Life A)) (agents : Dict A)
      → All (NotOf id) ls
      → lookup id agents ≡ none
      → (lookup id (live ls agents).0 ≡ none) × (times id (live ls agents).1 ≡ 0)
  unfolding live times
  absent id [] agents h k = (k, refl)
  absent id (added j b ∷ ls) agents (h, hs) k =
      absent id ls (store j b agents) hs (ground (arith, h, lookup-store j id b agents))
  absent id (ended j ∷ ls) agents (h, hs) k = elim (Option-cases (lookup j agents)) [
    | inl e ↦ ground (arith, e, absent id ls agents hs k)
    | inr (b, e) ↦ ground (
      arith,
      e,
      h,
      absent id ls (delete j agents) hs (ground (arith, h, lookup-delete j id agents)),
    )
  ]

  NotOf-NoEnd : (id : Bytes) (ls : List (Life A)) → All (NotOf id) ls → All (NoEnd id) ls
  NotOf-NoEnd id [] h = tt
  NotOf-NoEnd id (added j a ∷ ls) (h, hs) = (tt, NotOf-NoEnd id ls hs)
  NotOf-NoEnd id (ended j ∷ ls) (h, hs) = (h, NotOf-NoEnd id ls hs)

  live-append :
      (id : Bytes) (ls ks : List (Life A)) (m : Dict A)
      → ((live (ls ++ ks) m).0 ≡ (live ks (live ls m).0).0)
        × (times id (live (ls ++ ks) m).1
            ≡ times id (live ls m).1 + times id (live ks (live ls m).0).1)
  unfolding live times
  live-append id [] ks m = (refl, ground arith)
  live-append id (added j b ∷ ls) ks m = live-append id ls ks (add_agent j b m)
  live-append id (ended j ∷ ls) ks m = elim (Option-cases (lookup j m)) [
    | inl e ↦ ground (arith, e, live-append id ls ks m)
    | inr (b, e) ↦ ground (arith, e, live-append id ls ks (delete j m))
  ]

  end_of_present :
      (id : Bytes) (rest : List (Life A)) (m : Dict A)
      → All (NotOf id) rest
      → lookup id m ≢ none
      → (lookup id (live (ended id ∷ rest) m).0 ≡ none)
        × (times id (live (ended id ∷ rest) m).1 ≡ 1)
  unfolding live times
  end_of_present id rest m h k = elim (Option-cases (lookup id m)) [
    | inl e ↦ absurd (k e)
    | inr (b, e) ↦ ground (
      arith,
      e,
      text_eq_refl id,
      absent id rest (delete id m) h (ground (arith, lookup-delete id id m, text_eq_refl id)),
    )
  ]

  nobody_ended :
      (id : Bytes) (ls : List (Life A)) (m : Dict A)
      → lookup id m ≡ none
      → live (ended id ∷ ls) m ≡ live ls m
  unfolding live
  nobody_ended id ls m h = rw h refl

  added_stays :
      (id : Bytes) (a : A) (rest : List (Life A)) (m : Dict A)
      → All (NotOf id) rest
      → (lookup id (live (added id a ∷ rest) m).0 ≢ none)
        × (times id (live (added id a ∷ rest) m).1 ≡ 0)
  unfolding live add_agent
  added_stays id a rest m h =
      stays id rest (store id a m) (NotOf-NoEnd id rest h)
        (ground (arith, lookup-store_self id a m))

  -- An agent that is added before its connection ends leaves the map at the end, and its end is told to
  -- `cbClose` once, whatever other agents do before, between and after.
  pub ended_after_added :
      (id : Bytes) (a : A) (mid rest : List (Life A)) (agents : Dict A)
      → All (NotOf id) mid
      → All (NotOf id) rest
      → (lookup id (live (added id a ∷ (mid ++ (ended id ∷ rest))) agents).0 ≡ none)
        × (times id (live (added id a ∷ (mid ++ (ended id ∷ rest))) agents).1 ≡ 1)
  unfolding live add_agent
  ended_after_added id a mid rest agents hm hr =
      let m = store id a agents in
      let (there, none_yet) =
        stays id mid m (NotOf-NoEnd id mid hm) (ground (arith, lookup-store_self id a agents)) in
      ground (
        arith,
        live-append id mid (ended id ∷ rest) m,
        none_yet,
        end_of_present id rest (live mid m).0 hr there,
      )

  -- An agent whose connection ends before `accept` adds it stays in the map for good, and its end is
  -- never told to `cbClose`.
  pub added_after_ended :
      (id : Bytes) (a : A) (mid rest : List (Life A)) (agents : Dict A)
      → lookup id agents ≡ none
      → All (NotOf id) mid
      → All (NotOf id) rest
      → (lookup id (live (ended id ∷ (mid ++ (added id a ∷ rest))) agents).0 ≢ none)
        × (times id (live (ended id ∷ (mid ++ (added id a ∷ rest))) agents).1 ≡ 0)
  added_after_ended id a mid rest agents h hm hr =
      let m = (live mid agents).0 in
      ground (
        arith,
        nobody_ended id (mid ++ (added id a ∷ rest)) agents h,
        live-append id mid (added id a ∷ rest) agents,
        absent id mid agents hm h,
        added_stays id a rest m hr,
      )
