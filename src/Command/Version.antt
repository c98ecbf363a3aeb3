-- ===== src/Command/Version.antt =====
-- services/*/cli/version.go and internal/version/version.go: what the subcommand version prints.
use go_task_flow.Prelude.{String, ◌<>◌, List, [], ◌∷◌}

-- The variables of the package, which the linker may set, and runtime.Version().
pub record BuildInfo : Type 0 where
  pub version : String
  pub build_time : String
  pub git_commit : String
  pub go_version : String

unfoldable pub unset : String → BuildInfo
unset go_version = record {
  version = "dev";
  build_time = "unknown";
  git_commit = "unknown";
  go_version = go_version;
}

unfoldable pub version_lines : String → BuildInfo → List String
version_lines name b =
    (name <> (" " <> b.version))
    ∷ ("  commit:     " <> b.git_commit)
    ∷ ("  built:      " <> b.build_time)
    ∷ ("  go version: " <> b.go_version)
    ∷ []

unfoldable pub version_worker : BuildInfo → List String
version_worker = version_lines "worker"

unfoldable pub version_dispatcher : BuildInfo → List String
version_dispatcher = version_lines "dispatcher"

unfoldable pub version_scheduler : BuildInfo → List String
version_scheduler = version_lines "scheduler"

unfoldable pub version_api_gateway : BuildInfo → List String
version_api_gateway = version_lines "api-gateway"
