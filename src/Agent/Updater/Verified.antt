-- ===== src/Agent/Updater/Verified.antt =====
-- Which binary internal/agent/updater.go leaves on the disk, whatever fails.
use ai_edge.Prelude.{
  ◌≡◌, refl, ap, ◌∙◌, ◌⊎◌, inl, inr, String, concat, Bool, true, false, Option, none, some, arith,
  ◌==◌, eq_refl, Bool-cases, Option-cases,
}
use ai_edge.Agent.Updater.{
  ReleaseManifest, Updater, UpdaterTools, Files, Download, refused, cut_off, written, Run,
  validate_manifest, download_binary, verify_checksum, verify_signature, replace_binary, remove_if,
  upgrade, execute_upgrade,
}

-- The content has the checksum of the manifest, and where a key is configured it has signed that
-- checksum.
abbrev pub IsVerified : UpdaterTools → Updater → ReleaseManifest → String → Type 0
IsVerified tools u m content =
    (tools.equal_fold (tools.sha256_hex content) m.sha256 ≡ true)
    × (verify_signature tools u.verify_key m.sha256 m.signature ≡ none)

-- The paths of the binary, of the download and of the backup differ.
pub record AreApart (binary : String) : Type 0 where
  pub binary_tmp : (binary == concat binary ".new") ≡ false
  pub binary_backup : (binary == concat binary ".bak") ≡ false
  pub tmp_binary : (concat binary ".new" == binary) ≡ false
  pub tmp_backup : (concat binary ".new" == concat binary ".bak") ≡ false

-- The old binary was moved away, and neither the new one could be put in place nor the old one back.
abbrev pub IsStranded : Run → Type 0
IsStranded run =
    (run.backup_refused ≡ false) × (run.replace_refused ≡ true) × (run.restore_refused ≡ true)

module _ (u : Updater) (run : Run) (apart : AreApart u.binary_path) where
  abbrev binary : String
  binary = u.binary_path

  abbrev tmp : String
  tmp = concat u.binary_path ".new"

  replace_cases :
      (files : Files) (old new : String)
      → files binary ≡ some old
      → files tmp ≡ some new
      → ((replace_binary u run tmp files).1 binary ≡ some old)
        ⊎ ((IsStranded run × ((replace_binary u run tmp files).1 binary ≡ none))
            ⊎ ((replace_binary u run tmp files).1 binary ≡ some new))
  unfolding replace_binary
  replace_cases files old new o n =
      let backup = concat u.binary_path ".bak" in
      elim (Bool-cases run.backup_refused) [
        | inl b ↦ inl (rw b o)
        | inr b ↦ elim (Bool-cases run.replace_refused) [
          | inr r ↦ inr (
              inr (
                rw b (
                  rw o (
                    rw r (
                      rw apart.tmp_backup
                        (rw apart.tmp_binary (rw n (rw (eq_refl binary) refl))))))))
          | inl r ↦ elim (Bool-cases run.restore_refused) [
            | inl x ↦ inr (
                inl (
                  (b, r, x),
                  rw b (rw o (rw r (rw x (rw apart.binary_backup (rw (eq_refl binary) refl))))),
                ))
            | inr x ↦
                inl (rw b (rw o (rw r (rw x (rw (eq_refl backup) (rw (eq_refl binary) refl))))))
          ]
        ]
      ]

  -- The download leaves the binary alone.
  download-binary :
      (d : Download) (files : Files) → (download_binary d tmp files).1 binary ≡ files binary
  download-binary (refused text) files = refl
  download-binary (cut_off left) files = rw apart.binary_tmp refl
  download-binary (written content closed) files = rw apart.binary_tmp refl

  remove-binary : (b : Bool) (files : Files) → remove_if b tmp files binary ≡ files binary
  remove-binary true files = rw apart.binary_tmp refl
  remove-binary false files = refl

checksum_holds :
    (tools : UpdaterTools) (readable : Bool) (content : Option String) (expected : String)
    → verify_checksum tools readable content expected ≡ none
    → (c : String) × (content ≡ some c) × (tools.equal_fold (tools.sha256_hex c) expected ≡ true)
unfolding verify_checksum
checksum_holds tools readable none expected h = cc
checksum_holds tools readable (some c) expected h = (c, refl, ground (arith, h))

-- The binary is the old one, is missing since all three renames went the wrong way, or is a verified
-- one.
abbrev pub Left :
    UpdaterTools → Updater → Run → ReleaseManifest → (old : String) → Option String → Type 0
Left tools u run m old found =
    (found ≡ some old)
    ⊎ ((IsStranded run × (found ≡ none))
        ⊎ ((content : String) × (found ≡ some content) × IsVerified tools u m content))

module _ (tools : UpdaterTools) (u : Updater) (run : Run) (apart : AreApart u.binary_path) where
  upgrade_leaves :
      (m : ReleaseManifest) (files : Files) (old : String)
      → files u.binary_path ≡ some old
      → Left tools u run m old ((upgrade tools u run m files).1 u.binary_path)
  upgrade_leaves m files old o =
      let tmp = concat u.binary_path ".new" in
      let loaded = download_binary run.download tmp files in
      let kept : loaded.1 u.binary_path ≡ some old =
        download-binary u run apart run.download files ∙ o in
      elim (Option-cases loaded.0) [
        | inr (text, e) ↦ inl (rw e kept)
        | inl e ↦ elim (Option-cases (verify_checksum tools run.readable (loaded.1 tmp) m.sha256)) [
          | inr (text, c) ↦
              inl (rw e (rw c (remove-binary u run apart run.removable loaded.1 ∙ kept)))
          | inl c ↦ elim (Option-cases (verify_signature tools u.verify_key m.sha256 m.signature)) [
            | inr (text, s) ↦
                inl (rw e (rw c (rw s (remove-binary u run apart run.removable loaded.1 ∙ kept))))
            | inl s ↦
                let (new, n, sum) = checksum_holds tools run.readable (loaded.1 tmp) m.sha256 c in
                let placed = replace_binary u run tmp loaded.1 in
                let same : (upgrade tools u run m files).1 ≡ placed.1 =
                  elim (Option-cases placed.0) [
                    | inl p ↦ rw e (rw c (rw s (rw p refl)))
                    | inr (text, p) ↦ rw e (rw c (rw s (rw p refl)))
                  ] in
                let at = ap (λ (f : Files). f u.binary_path) same in
                elim (replace_cases u run apart loaded.1 old new kept n) [
                  | inl back ↦ inl (at ∙ back)
                  | inr (inl (stranded, gone)) ↦ inr (inl (stranded, at ∙ gone))
                  | inr (inr there) ↦ inr (inr (new, at ∙ there, (sum, s)))
                ]
          ]
        ]
      ]

  -- Whatever fails, an upgrade of an agent whose binary is there, at a path that differs from those of
  -- the download and the backup, leaves the old binary; or, under a manifest that was accepted, a binary
  -- with the checksum of that manifest, which the configured key has signed where one is configured;
  -- or none, where the old binary was moved away and the system refused both to put the new one in
  -- place and to put the old one back.
  pub execute_upgrade_leaves :
      (task_type payload : String) (files : Files) (old : String)
      → files u.binary_path ≡ some old
      → ((execute_upgrade tools u run task_type payload files).1 u.binary_path ≡ some old)
        ⊎ ((m : ReleaseManifest) × (tools.read_manifest payload ≡ some m)
            × (validate_manifest tools m ≡ none)
            × Left tools u run m old
                ((execute_upgrade tools u run task_type payload files).1 u.binary_path))
  unfolding execute_upgrade
  execute_upgrade_leaves task_type payload files old o =
      elim (Bool-cases (task_type == "UpgradeAgent")) [
        | inr t ↦ inl (rw t o)
        | inl t ↦ elim (Option-cases (tools.read_manifest payload)) [
          | inl r ↦ inl (rw t (rw r o))
          | inr (m, r) ↦ elim (Option-cases (validate_manifest tools m)) [
            | inr (text, v) ↦ inl (rw t (rw r (rw v o)))
            | inl v ↦ inr (m, r, v, rw t (rw r (rw v (upgrade_leaves m files old o))))
          ]
        ]
      ]
