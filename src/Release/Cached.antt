-- ===== src/Release/Cached.antt =====
-- What a second call of `DownloadRelease` of playground/releases.go finds.
use builder_playground.Prelude.{
  String, Bool, true, false, Option, none, some, List, [], ◌∷◌, ◌≡◌, refl, Result, ok, err, ◌⊕◌,
  ◌==◌, eq_iff, eq_refl, Bool-cases, inl, inr, if_cases,
}
use mathlib.Core.Path.{subst}
use builder_playground.Release.{
  TarItem, regular, other_type, broken, Release, Machine, Effect, exists, extract, created,
  read_tar, responded, download_artifact, out_path_of, releases_url, downloaded, fetch, made_folder,
  checked, download_release,
}
use builder_playground.Release.Archive.{Offers}

-- The executable is there if the call succeeded.
abbrev There : {A : Type 0} → String → Effect A → Type 0
There out_path (files, ok a) = exists files out_path ≡ true
There out_path (files, err e) = Unit

module _ (machine : Machine) (out_path : String) where
  created-There :
      (files : List String) (copy create chmod : Option String)
      → machine.chmod_error out_path ≡ chmod
      → There out_path (created machine out_path files copy create)
  created-There files copy (some e) chmod m = tt
  created-There files (some e) none chmod m = tt
  created-There files none none (some e) m = rw m tt
  created-There files none none none m = rw (m, eq_refl out_path) refl

  read_tar-There :
      (expected : String) (files : List String) (items : List TarItem)
      → There out_path (read_tar machine expected out_path files items)
  unfolding read_tar extract
  read_tar-There expected files [] = tt
  read_tar-There expected files (broken e ∷ items) = tt
  read_tar-There expected files (other_type ∷ items) = read_tar-There expected files items
  read_tar-There expected files (regular name copy ∷ items) =
      if_cases (There {A = Unit {0}} out_path) (name == expected)
        (λ _.
          created-There files copy (machine.create_error out_path) (machine.chmod_error out_path)
            refl)
        (λ _. tt)

  responded-There :
      (expected : String) (files : List String) (r : Result String (Result String (List TarItem)))
      → There out_path (responded machine expected out_path files r)
  responded-There expected files (err e) = tt
  responded-There expected files (ok (err e)) = tt
  responded-There expected files (ok (ok items)) = read_tar-There expected files items

downloaded-There :
    (machine : Machine) (out_path : String) (r : Effect (Unit {0}))
    → There out_path r
    → There out_path (downloaded machine out_path r)
downloaded-There machine out_path (files, ok a) h = h
downloaded-There machine out_path (files, err e) h = tt

-- A copy that breaks off leaves the file behind.
read_tar-broken :
    (machine : Machine) (out_path expected : String) (files : List String) (items : List TarItem)
    (e : String)
    → Offers expected (some e) items
    → machine.create_error out_path ≡ none
    → read_tar machine expected out_path files items
      ≡ (out_path ∷ files, err ("error writing output file: " ⊕ e))
unfolding read_tar extract
read_tar-broken machine out_path expected files [] e o c = elim o [ ]
read_tar-broken machine out_path expected files (broken f ∷ items) e o c = elim o [ ]
read_tar-broken machine out_path expected files (other_type ∷ items) e o c =
    read_tar-broken machine out_path expected files items e o c
read_tar-broken machine out_path expected files (regular name copy ∷ items) e (n, o) c =
    rw ((eq_iff name expected).1 n, c, o) refl

-- A call finds an executable that is there, and does nothing else.
found_there :
    (machine : Machine) (output_folder : String) (artifact : Release) (files : List String)
    → machine.stat_error (out_path_of output_folder artifact) ≡ none
    → exists files (out_path_of output_folder artifact) ≡ true
    → download_release machine output_folder artifact files
      ≡ (files, ok (out_path_of output_folder artifact))
unfolding download_release
found_there machine output_folder artifact files s e = rw (s, e) refl

module _ (machine : Machine) (output_folder out_path : String) (artifact : Release) where
  -- The architecture is supported.
  abbrev Supported : Type 0
  Supported = Path Bool (artifact.arch machine.goos machine.goarch == "") false

  made_folder-There :
      (files : List String) (e : Option String)
      → Supported
      → There out_path (made_folder machine out_path artifact files e)
  unfolding fetch download_artifact
  made_folder-There files (some e) s = tt
  made_folder-There files none s =
      let arch_version = artifact.arch machine.goos machine.goarch in
      rw s (
        downloaded-There machine out_path
          (responded machine artifact.name out_path files
            (machine.get (releases_url artifact arch_version)))
          (responded-There machine out_path artifact.name files
            (machine.get (releases_url artifact arch_version))))

  checked-There :
      (files : List String) (e : Option String)
      → Supported
      → There out_path (checked machine output_folder out_path artifact files e)
  checked-There files (some e) s = tt
  checked-There files none s = elim (Bool-cases (exists files out_path)) [
    | inl e ↦ rw e e
    | inr e ↦ rw e (made_folder-There files (machine.mkdir_error output_folder) s)
  ]

module _ (first second : Machine) (output_folder : String) (artifact : Release)
    (files : List String) (supported : (artifact.arch first.goos first.goarch == "") ≡ false)
    (known : second.stat_error (out_path_of output_folder artifact) ≡ none) where
  -- After a call of `DownloadRelease` that succeeded on a supported architecture, a second call,
  -- whatever the network and the rest of the machine answer, gives the path of the release and
  -- changes nothing, if os.Stat of that path does not fail.
  download_release-again :
      (files1 : List String) (location : String)
      → download_release first output_folder artifact files ≡ (files1, ok location)
      → download_release second output_folder artifact files1
        ≡ (files1, ok (out_path_of output_folder artifact))
  unfolding download_release
  download_release-again files1 location h =
      found_there second output_folder artifact files1 known (
        subst (There (out_path_of output_folder artifact)) h (
          checked-There first output_folder (out_path_of output_folder artifact) artifact files
            (first.stat_error (out_path_of output_folder artifact)) supported))

  -- A download that breaks off while the executable is copied is an error, and leaves the file
  -- behind: the next call of `DownloadRelease` takes it for the release, and succeeds. The
  -- architecture is supported, nothing was there before, and the file can be created.
  pub download_release-broken :
      (items : List TarItem) (e : String)
      → first.stat_error (out_path_of output_folder artifact) ≡ none
      → exists files (out_path_of output_folder artifact) ≡ false
      → first.mkdir_error output_folder ≡ none
      → first.get (releases_url artifact (artifact.arch first.goos first.goarch)) ≡ ok (ok items)
      → Offers artifact.name (some e) items
      → first.create_error (out_path_of output_folder artifact) ≡ none
      → (download_release first output_folder artifact files ≡ (
        out_path_of output_folder artifact ∷ files,
        err ("error downloading artifact: error writing output file: " ⊕ e),
      ))
        × (download_release second output_folder artifact
              (out_path_of output_folder artifact ∷ files)
            ≡ (out_path_of output_folder artifact ∷ files, ok (out_path_of output_folder artifact)))
  unfolding download_release fetch download_artifact
  download_release-broken items e s fresh m g o c =
      let out_path = out_path_of output_folder artifact in
      (
        rw
            (
              s,
              fresh,
              m,
              supported,
              g,
              read_tar-broken first out_path artifact.name files items e o c,
            )
            refl,
        found_there second output_folder artifact (out_path ∷ files) known
            (rw (eq_refl out_path) refl),
      )
