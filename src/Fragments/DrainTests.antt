-- ===== src/Fragments/DrainTests.antt =====
-- The witnesses on taking messages: an alert that has come in whole, behind two types without one.
use tls_dvnizk.Base.{◌≡◌, refl, [], ◌∷◌, ◌⊎◌, none, ok, All, suc}
use tls_dvnizk.Fragments.Defragmenter.{
  Defragmenter, add_static_size, add_dynamic_size, add_data, get_message,
}
use tls_dvnizk.Fragments.Slots.{IsIdle}
use tls_dvnizk.Fragments.Draining.{
  Takes, get_message_lem, adding, statically, dynamically, Reachable, new, after, total, drain,
  drain-Reachable,
}

abbrev typed : Defragmenter
typed = (add_dynamic_size 22 1 3 ((add_static_size 21 2 []).1)).1

abbrev filled : Defragmenter
filled = (add_data 21 (2 ∷ 40 ∷ 1 ∷ []) typed).1

filled-Reachable : Reachable filled
filled-Reachable =
    after typed filled
      (after ((add_static_size 21 2 []).1) typed
        (after [] ((add_static_size 21 2 []).1) (new [] refl) (statically [] 21 2))
        (dynamically ((add_static_size 21 2 []).1) 22 1 3))
      (adding typed 21 (2 ∷ 40 ∷ 1 ∷ []))

drain-Reachable_example : All IsIdle ((drain (suc (total filled)) filled).1)
drain-Reachable_example = drain-Reachable filled filled-Reachable

get_message_lem_example :
    (All IsIdle filled × (get_message filled ≡ (ok none, filled))) ⊎ Takes filled
get_message_lem_example = get_message_lem filled
