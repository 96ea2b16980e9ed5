-- ===== src/Tests/Rollups.antt =====
-- The OP stack recipe at concrete flags.
use builder_playground.Prelude.{
  true, false, none, some, [], ◌∷◌, ◌≡◌, refl, arith, ltb, decimal, ok,
}
use builder_playground.Output.{Output, stat, get_enode_addr}
use builder_playground.Context.{ExContext, level_info}
use builder_playground.Catalog.{Keys}
use builder_playground.Manifest.{Manifest, validate}
use builder_playground.Manifest.Spammer.{spam}
use builder_playground.Recipe.OpStack.{apply}
use builder_playground.Recipe.OpStack.Parts.{rbuilder, op_recipe}
use builder_playground.Recipe.OpStack.Verdict.{verdict, op_files, apply-verdict}

abbrev out_folder : Output
out_folder = record {
  dst = "/out";
  home_dir = "/home";
  enode_addr_seq = none;
  files = op_files;
  faults = [];
}

abbrev drawn : Output
drawn = record out_folder {
  enode_addr_seq = some 1;
  files =
      "genesis.json" ∷ "jwtsecret" ∷ "testnet" ∷ "data_validator" ∷ "l2-genesis.json"
      ∷ "rollup.json" ∷ "enode-key-1.txt" ∷ [];
}

abbrev sample_keys : Keys
sample_keys = record { valid_key = λ n. ltb 0 n; node_id = λ n. decimal n; relay_key = none }

abbrev sample_ctx : ExContext
sample_ctx = record {
  log_level = level_info;
  output = out_folder;
  bootnode = none;
  contender = spam true "";
}

apply-verdict_example :
    (m : Manifest) × (apply sample_keys
        (op_recipe rbuilder true true false none 2 0)
        sample_ctx
        out_folder
      ≡ ok m)
    × (validate m ≡ verdict rbuilder true true)
unfolding stat get_enode_addr
apply-verdict_example =
    apply-verdict sample_keys none 2 0 sample_ctx out_folder drawn
      (record { priv_key = 1; artifact = "enode-key-1.txt" }) rbuilder true true false true
      (omega arith) refl refl refl (refl, (refl, (refl, (refl, (refl, (refl, tt))))))
