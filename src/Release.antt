-- ===== src/Release.antt =====
-- playground/releases.go: `DownloadRelease`, with the releases of reth and op-reth in
-- playground/components.go.
-- The machine is what the operating system and the network answer; the state is the list of the paths
-- that exist.
pub mod Archive
pub mod Cached
use builder_playground.Prelude.{
  String, Bool, true, false, Option, none, some, List, [], ◌∷◌, any, ◌&&◌, ◌⊕◌, ◌==◌, if◌then◌else◌,
  Result, ok, err,
}

-- `release`
pub record Release : Type 0 where
  pub name : String
  pub repo : String
  pub org : String
  pub version : String
  pub arch : String → String → String

-- What reading a tar archive gives: a regular file, with the error of copying it, something else, or an
-- error of the reader.
pub data TarItem : Type 0 where
  regular : String → Option String → TarItem
  other_type : TarItem
  broken : String → TarItem

pub record Machine : Type 0 where
  pub goos : String
  pub goarch : String
  -- The error of os.Stat for another reason than absence.
  pub stat_error : String → Option String
  pub mkdir_error : String → Option String
  pub look_path_error : String → Option String
  pub create_error : String → Option String
  pub chmod_error : String → Option String
  -- http.Get, and the gzip reader over what it gives.
  pub get : String → Result String (Result String (List TarItem))

-- The paths that exist afterwards, and what the call returns.
abbrev pub Effect : Type 0 → Type 0
Effect A = List String × Result String A

abbrev pub exists : List String → String → Bool
exists files path = any (λ f. f == path) files

-- The architectures of both releases.
unfoldable pub reth_arch : String → String → String
reth_arch goos goarch =
    if goos == "linux"
    then "x86_64-unknown-linux-gnu"
    else if goos == "darwin" && goarch == "arm64"
    then "aarch64-apple-darwin"
    else if goos == "darwin" && goarch == "amd64"
    then "x86_64-apple-darwin"
    else ""

-- `RethEL.ReleaseArtifact`
unfoldable pub reth_release : Release
unfolding reth_arch
reth_release = record {
  name = "reth";
  repo = "";
  org = "paradigmxyz";
  version = "v1.4.8";
  arch = reth_arch;
}

-- `OpReth.ReleaseArtifact`
unfoldable pub op_reth_release : Release
unfolding reth_arch
op_reth_release = record {
  name = "op-reth";
  repo = "reth";
  org = "paradigmxyz";
  version = "v1.3.12";
  arch = reth_arch;
}

unfoldable pub out_path_of : String → Release → String
out_path_of output_folder artifact = output_folder ⊕ "/" ⊕ artifact.name ⊕ "-" ⊕ artifact.version

unfoldable pub releases_url : Release → String → String
releases_url artifact arch_version =
    let repo = if artifact.repo == "" then artifact.name else artifact.repo in
    "https://github.com/" ⊕ artifact.org ⊕ "/" ⊕ repo ⊕ "/releases/download/" ⊕ artifact.version
    ⊕ "/" ⊕ artifact.name ⊕ "-" ⊕ artifact.version ⊕ "-" ⊕ arch_version ⊕ ".tar.gz"

module _ (machine : Machine) where
  -- After the file is created: the copy, and the permissions.
  abbrev pub permitted : List String → Option String → Effect (Unit {0})
  permitted files (some e) = (files, err ("error changing permissions: " ⊕ e))
  permitted files none = (files, ok tt)

  abbrev pub fill : String → List String → Option String → Effect (Unit {0})
  fill out_path files (some e) = (files, err ("error writing output file: " ⊕ e))
  fill out_path files none = permitted files (machine.chmod_error out_path)

  abbrev pub created : String → List String → Option String → Option String → Effect (Unit {0})
  created out_path files copy (some e) = (files, err ("error creating output file: " ⊕ e))
  created out_path files copy none = fill out_path (out_path ∷ files) copy

  unfoldable pub extract : String → List String → Option String → Effect (Unit {0})
  extract out_path files copy = created out_path files copy (machine.create_error out_path)

  -- The loop of `downloadArtifact` over the archive.
  unfoldable pub read_tar : String → String → List String → List TarItem → Effect (Unit {0})
  unfolding extract
  read_tar expected out_path files [] = (files, err ("file not found in archive: " ⊕ expected))
  read_tar expected out_path files (broken e ∷ items) = (files, err ("error reading tar: " ⊕ e))
  read_tar expected out_path files (other_type ∷ items) = read_tar expected out_path files items
  read_tar expected out_path files (regular name copy ∷ items) =
      if name == expected
      then extract out_path files copy
      else (files, err ("unexpected file in archive: " ⊕ name))

  abbrev pub unzipped :
      String → String → List String → Result String (List TarItem) → Effect (Unit {0})
  unzipped expected out_path files (err e) = (files, err ("error creating gzip reader: " ⊕ e))
  unzipped expected out_path files (ok items) = read_tar expected out_path files items

  abbrev pub responded :
      String
      → String
      → List String
      → Result String (Result String (List TarItem))
      → Effect (Unit {0})
  responded expected out_path files (err e) = (files, err ("error downloading file: " ⊕ e))
  responded expected out_path files (ok body) = unzipped expected out_path files body

  -- `downloadArtifact`
  unfoldable pub download_artifact : String → String → String → List String → Effect (Unit {0})
  unfolding read_tar
  download_artifact url expected out_path files =
      responded expected out_path files (machine.get url)

  abbrev pub downloaded : String → Effect (Unit {0}) → Effect String
  downloaded out_path (files, ok _) = (files, ok out_path)
  downloaded out_path (files, err e) = (files, err ("error downloading artifact: " ⊕ e))

  abbrev pub looked_up : Release → List String → Option String → Effect String
  looked_up artifact files (some e) = (files, err ("error looking up binary in PATH: " ⊕ e))
  looked_up artifact files none = (files, ok artifact.name)

  -- The two cases of an executable that is not there yet.
  unfoldable pub fetch : String → Release → String → List String → Effect String
  unfolding download_artifact releases_url
  fetch out_path artifact arch_version files =
      if arch_version == ""
      then looked_up artifact files (machine.look_path_error artifact.name)
      else downloaded out_path
          (download_artifact (releases_url artifact arch_version) artifact.name out_path files)

  abbrev pub made_folder : String → Release → List String → Option String → Effect String
  made_folder out_path artifact files (some e) = (files, err ("error creating output folder: " ⊕ e))
  made_folder out_path artifact files none =
      fetch out_path artifact (artifact.arch machine.goos machine.goarch) files

  abbrev pub checked : String → String → Release → List String → Option String → Effect String
  checked output_folder out_path artifact files (some e) =
      (files, err ("error checking file existence: " ⊕ e))
  checked output_folder out_path artifact files none =
      if exists files out_path
      then (files, ok out_path)
      else made_folder out_path artifact files (machine.mkdir_error output_folder)

  -- `DownloadRelease`
  unfoldable pub download_release : String → Release → List String → Effect String
  unfolding out_path_of fetch
  download_release output_folder artifact files =
      let out_path = out_path_of output_folder artifact in
      checked output_folder out_path artifact files (machine.stat_error out_path)
