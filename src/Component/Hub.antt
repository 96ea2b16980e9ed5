-- ===== src/Component/Hub.antt =====
-- playground/components.go: builder-hub, its database and its mock proxy.
use builder_playground.Prelude.{String, not, [], ◌∷◌, ◌⊕◌, ◌==◌}
use builder_playground.Output.{connect_raw}
use builder_playground.Service.{
  Builder, ◌▹◌, when, with_image, with_entrypoint, with_tag, with_port, with_args, with_env,
  with_ready, depends_on_healthy,
}
use builder_playground.Context.{ExContext}

unfoldable pub run_builder_hub_postgres : Unit {0} → ExContext → Builder
unfolding with_port with_env with_args
run_builder_hub_postgres b ctx =
    with_image "docker.io/flashbots/builder-hub-db"
    ▹ with_tag "latest"
    ▹ with_port "postgres" 5432 []
    ▹ with_env "POSTGRES_USER" "postgres"
    ▹ with_env "POSTGRES_PASSWORD" "postgres"
    ▹ with_env "POSTGRES_DB" "postgres"
    ▹ with_ready (record {
      query_url = "";
      test = "CMD-SHELL" ∷ "pg_isready -U postgres -d postgres" ∷ [];
      interval = 1;
      start_period = 1;
      timeout = 30;
      retries = 3;
    })

pub record BuilderHub : Type 0 where
  pub postgres : String

unfoldable pub run_builder_hub : BuilderHub → ExContext → Builder
unfolding connect_raw with_env
run_builder_hub b ctx =
    with_image "docker.io/flashbots/builder-hub"
    ▹ with_tag "latest"
    ▹ with_entrypoint "/app/builder-hub"
    ▹ with_env "POSTGRES_DSN" (
        (connect_raw b.postgres "postgres" "postgres" "postgres:postgres")
        ⊕ "/postgres?sslmode=disable")
    ▹ with_env "LISTEN_ADDR" ("0.0.0.0:" ⊕ "{{Port \"http\" 8080}}")
    ▹ with_env "ADMIN_ADDR" ("0.0.0.0:" ⊕ "{{Port \"admin\" 8081}}")
    ▹ with_env "INTERNAL_ADDR" ("0.0.0.0:" ⊕ "{{Port \"internal\" 8082}}")
    ▹ with_env "METRICS_ADDR" ("0.0.0.0:" ⊕ "{{Port \"metrics\" 8090}}")
    ▹ depends_on_healthy b.postgres

pub record BuilderHubMockProxy : Type 0 where
  pub target_service : String

unfoldable pub run_builder_hub_mock_proxy : BuilderHubMockProxy → ExContext → Builder
unfolding with_port
run_builder_hub_mock_proxy b ctx =
    with_image "docker.io/flashbots/builder-hub-mock-proxy"
    ▹ with_tag "latest"
    ▹ with_port "http" 8888 []
    ▹ when (not (b.target_service == "")) (depends_on_healthy b.target_service)
