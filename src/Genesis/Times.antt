-- ===== src/Genesis/Times.antt =====
-- The fork times that `Build` of playground/artifacts.go writes in the genesis and the rollup files.
use builder_playground.Prelude.{ℕ, String, Option, none, some, List, ◌≡◌, refl, ap, ◌∙◌, decimal}
use builder_playground.Genesis.{
  Json, null, boolean, number, text, array, object, Fields, end, field, get_field, merge_map,
  ArtifactsBuilder, fork_time, genesis_input, rollup_input,
}
use builder_playground.Genesis.Merge.{merged, merge_map-merged}

-- The object sets both forks to a time.
abbrev pub Forks : ℕ → Fields → Type 0
Forks time config =
    (get_field "pragueTime" config ≡ some (number (decimal time)))
    × (get_field "isthmusTime" config ≡ some (number (decimal time)))

abbrev times : ℕ → Fields
times time =
    field "pragueTime" (number (decimal time)) (field "isthmusTime" (number (decimal time)) end)

config-Forks :
    (time : ℕ) (before : Option Json)
    → (config : Fields) × (merged (some (object (times time))) before ≡ some (object config))
      × Forks time config
unfolding merge_map
config-Forks time none = (times time, refl, (refl, refl))
config-Forks time (some null) = (times time, refl, (refl, refl))
config-Forks time (some (boolean b)) = (times time, refl, (refl, refl))
config-Forks time (some (number n)) = (times time, refl, (refl, refl))
config-Forks time (some (text t)) = (times time, refl, (refl, refl))
config-Forks time (some (array xs)) = (times time, refl, (refl, refl))
config-Forks time (some (object dst)) = (
  merge_map (times time) dst,
  refl,
  (
    merge_map-merged (times time) dst "pragueTime" ((refl, tt), (tt, tt)),
    merge_map-merged (times time) dst "isthmusTime" ((refl, tt), (tt, tt)),
  ),
)

-- When the latest L2 fork is applied, the genesis file, whatever it was before, has a config that
-- sets Prague and Isthmus to the fork time, and the rollup file sets Isthmus to the same time.
pub fork_time-Forks :
    (b : ArtifactsBuilder) (hex : ℕ → String) (addresses : List String) (l1_hash l2_hash : String)
    (timestamp time : ℕ) (genesis rollup : Fields)
    → fork_time b timestamp ≡ some time
    → ((config : Fields) × (get_field "config"
            (merge_map (genesis_input hex addresses (fork_time b timestamp) timestamp) genesis)
          ≡ some (object config))
        × Forks time config)
      × (get_field "isthmus_time"
            (merge_map (rollup_input l1_hash l2_hash b (fork_time b timestamp) timestamp) rollup)
          ≡ some (number (decimal time)))
unfolding genesis_input rollup_input merge_map
fork_time-Forks b hex addresses l1_hash l2_hash timestamp time genesis rollup h =
    let (config, e, forks) = config-Forks time (get_field "config" genesis) in
    (
      (
        config,
        ap
              (λ fork.
                get_field "config" (merge_map (genesis_input hex addresses fork timestamp) genesis))
              h
            ∙ merge_map-merged (genesis_input hex addresses (some time) timestamp) genesis "config"
                ((refl, (refl, tt)), ((refl, tt), (tt, tt)))
            ∙ e,
        forks,
      ),
      ap
            (λ fork.
              get_field "isthmus_time"
                (merge_map (rollup_input l1_hash l2_hash b fork timestamp) rollup))
            h
          ∙ merge_map-merged (rollup_input l1_hash l2_hash b (some time) timestamp) rollup
              "isthmus_time"
              ((refl, (refl, (refl, tt))), ((refl, (refl, tt)), ((refl, tt), (tt, tt)))),
    )
