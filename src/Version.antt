-- ===== src/Version.antt =====
-- internal/pkg/version/version.go: the variables that the build sets, and the lines that log them.
use fabric_adapter.Base.{List, [], ◌∷◌, ◌++◌, Text, codes}

-- `Version`, `GoVersion`, `GitCommit`, `GitDirty`, `BuildTime`, `Os` and `Arch`
pub record Build : Type 0 where
  pub version : Text
  pub go_version : Text
  pub git_commit : Text
  pub git_dirty : Text
  pub build_time : Text
  pub os : Text
  pub arch : Text

-- their values where the build sets none
abbrev pub default_build : Build
default_build = record {
  version = codes "unknown-version";
  go_version = codes "unknown-goversion";
  git_commit = codes "unknown-gitcommit";
  git_dirty = codes "unknown-gitdirty";
  build_time = codes "unknown-buildtime";
  os = codes "unknown-os";
  arch = codes "unknown-arch";
}

-- `LogVersion`
abbrev pub log_version : Text → Build → List Text
log_version indent b =
    (indent ++ (codes "Version:      " ++ (b.version ++ codes "\n")))
    ∷ (indent ++ (codes "GoVersion:    " ++ (b.go_version ++ codes "\n")))
    ∷ (indent ++ (codes "Git Commit:   " ++ (b.git_commit ++ codes "\n")))
    ∷ (indent ++ (codes "Git Dirty:    " ++ (b.git_dirty ++ codes "\n")))
    ∷ (indent ++ (codes "Built:        " ++ (b.build_time ++ codes "\n")))
    ∷ (indent ++ (codes "OS/Arch:      " ++ (b.os ++ (codes "/" ++ (b.arch ++ codes "\n")))))
    ∷ []
