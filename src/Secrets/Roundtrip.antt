-- ===== src/Secrets/Roundtrip.antt =====
-- What the producer reads of the files that the receiver writes for it.
use hermes_plugin_async_thre.Prelude.{
  List, String, false, refl, some, true, ℕ, ◌<>◌, ◌==◌, ◌∙◌, ◌≡◌,
}
use hermes_plugin_async_thre.Emitter.{sign_bytes}
use hermes_plugin_async_thre.Python.Except.{ok}
use hermes_plugin_async_thre.Python.Runtime.{Runtime}
use hermes_plugin_async_thre.Registry.Rows.{Handle}
use hermes_plugin_async_thre.Secrets.Artifact.{
  artifact_for, remove_secret_artifact, safe_path_token, write_secret_artifact,
}
use hermes_plugin_async_thre.Secrets.Files.{FileStore, exists, make_directory, read_text, unlink}
use hermes_plugin_async_thre.Secrets.Laws.{
  apart_sym, exists-remove_directory, exists-unlink, exists-unlink_gone, directory-IsOther,
  name-IsOther, read_text-exists, read_text-make_directory, read_text-remove_directory,
  read_text-unlink_other, read_text-write_text, read_text-write_text_other,
}
use hermes_plugin_async_thre.Security.{verify_hmac_signature}
use hermes_plugin_async_thre.Security.Signature.{IsHexDigest, verify-sign_bytes}

module _ ⦃py : Runtime⦄ where
  pub written_secret :
      (h : Handle) (event_url root : String) (fs : FileStore)
      → let written = write_secret_artifact h event_url root fs in
        read_text written.0.directory "secret.txt" written.1 ≡ some h.secret
  unfolding write_secret_artifact artifact_for
  written_secret h event_url root fs =
      let d = safe_path_token h.thread_key in
      read_text-write_text_other d "secret.txt" d "contract.json" _ _
        (name-IsOther d d "secret.txt" "contract.json" refl)
      ∙ read_text-write_text d "secret.txt" h.secret (make_directory d fs)

  -- What a producer reads from the secret file that was just written for a listener signs bodies
  -- that the receiver accepts for that listener, if hex digests have their documented form and the
  -- listener has a secret.
  pub signature_of_written_secret :
      IsHexDigest
      → (h : Handle) (event_url root : String) (fs : FileStore) (raw : List ℕ)
      → (h.secret == "") ≡ false
      → let written = write_secret_artifact h event_url root fs in
        (key : String) × (signature : String) × (read_text written.0.directory "secret.txt"
            written.1
          ≡ some key)
        × (sign_bytes raw key ≡ ok signature)
        × (verify_hmac_signature raw h.secret signature ≡ ok true)
  unfolding sign_bytes
  signature_of_written_secret H h event_url root fs raw given =
      let signed : sign_bytes raw h.secret ≡ ok ("sha256=" <> py.hmac_hex h.secret raw) =
        rw given refl in
      (
        h.secret,
        "sha256=" <> py.hmac_hex h.secret raw,
        written_secret h event_url root fs,
        signed,
        verify-sign_bytes H raw h.secret signed,
      )

  -- neither file of a listener is there after their removal
  pub remove_secret_artifact-leaves_none :
      (thread_key : String) (fs : FileStore)
      → let after = (remove_secret_artifact thread_key fs).1 in
        (exists (safe_path_token thread_key) "secret.txt" after ≡ false)
        × (exists (safe_path_token thread_key) "contract.json" after ≡ false)
  unfolding remove_secret_artifact
  remove_secret_artifact-leaves_none thread_key fs =
      let own = safe_path_token thread_key in
      let once = unlink own "secret.txt" fs in
      let twice = unlink own "contract.json" once in
      (
        exists-remove_directory own "secret.txt" own twice
            ∙ exists-unlink_gone own "secret.txt" own "contract.json" once
                (exists-unlink own "secret.txt" fs),
        exists-remove_directory own "contract.json" own twice
            ∙ exists-unlink own "contract.json" once,
      )

  -- A write for a listener followed by a removal for the same key: neither file of that listener is
  -- there, the removal says that there was one, and every file of another directory is as it was.
  pub remove-write_secret_artifact :
      (h : Handle) (event_url root d name : String) (fs : FileStore)
      → (safe_path_token h.thread_key == d) ≡ false
      → let removal =
          remove_secret_artifact h.thread_key (write_secret_artifact h event_url root fs).1 in
        (exists (safe_path_token h.thread_key) "secret.txt" removal.1 ≡ false)
        × (exists (safe_path_token h.thread_key) "contract.json" removal.1 ≡ false)
        × (removal.0 ≡ true)
        × (read_text d name removal.1 ≡ read_text d name fs)
  unfolding remove_secret_artifact write_secret_artifact artifact_for
  remove-write_secret_artifact h event_url root d name fs apart =
      let own = safe_path_token h.thread_key in
      let written = (write_secret_artifact h event_url root fs).1 in
      let once = unlink own "secret.txt" written in
      let twice = unlink own "contract.json" once in
      let (no_secret, no_contract) = remove_secret_artifact-leaves_none h.thread_key written in
      (
        no_secret,
        no_contract,
        rw (read_text-exists own "secret.txt" h.secret written (written_secret h event_url root fs))
            refl,
        read_text-remove_directory d name own twice
            ∙ read_text-unlink_other d name own "contract.json" once
                (directory-IsOther own d "contract.json" name apart)
            ∙ read_text-unlink_other d name own "secret.txt" written
                (directory-IsOther own d "secret.txt" name apart)
            ∙ read_text-write_text_other d name own "contract.json" _ _
                (directory-IsOther d own name "contract.json" (apart_sym own d apart))
            ∙ read_text-write_text_other d name own "secret.txt" h.secret _
                (directory-IsOther d own name "secret.txt" (apart_sym own d apart))
            ∙ read_text-make_directory d name own fs,
      )
