-- ===== src/Catalog/Lookup.antt =====
-- playground/catalog.go `FindComponent`.
use builder_playground.Prelude.{some, ◌≡◌, refl, All}
use builder_playground.Catalog.{component_name, components, find_component}

-- Every component that `init` registers is the one that `FindComponent` returns for its name: no
-- two names clash.
find_component_lem : All (λ c. find_component (component_name c) ≡ some c) components
unfolding find_component component_name
find_component_lem = (
  refl,
  (
    refl,
    (
      refl,
      (
        refl,
        (
          refl,
          (
            refl,
            (
              refl,
              (
                refl,
                (
                  refl,
                  (
                    refl,
                    (
                      refl,
                      (refl, (refl, (refl, (refl, (refl, (refl, (refl, (refl, (refl, tt))))))))),
                    ),
                  ),
                ),
              ),
            ),
          ),
        ),
      ),
    ),
  ),
)
