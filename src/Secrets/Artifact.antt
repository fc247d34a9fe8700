-- ===== src/Secrets/Artifact.antt =====
-- The producer's copy of a listener's secret. Below the root directory there
-- is one directory for each listener; the root itself is a resolved path, and no write fails.
use Prim.Native.Char.{code}
use hermes_plugin_async_thre.Prelude.{
  Bool, String, [], false, if◌then◌else◌, nat_eq, true, ◌&&◌, ◌<>◌, ◌==◌, ◌||◌, ◌∷◌,
}
use hermes_plugin_async_thre.Python.Json.{Fields, arr, bool, end, field, obj, text, texts}
use hermes_plugin_async_thre.Python.Runtime.{Runtime}
use hermes_plugin_async_thre.Python.Text.{keep_chars}
use hermes_plugin_async_thre.Registry.Rows.{Handle}
use hermes_plugin_async_thre.Secrets.Files.{
  FileStore, exists, make_directory, remove_directory, unlink, write_text,
}

pub record SecretArtifact : Type 0 where
  pub thread_key : String
  pub directory : String
  pub secret_file : String
  pub contract_file : String

-- the path of a file in a listener's directory
abbrev pub path_of : String → String → String → String
path_of root directory name = root <> ("/" <> (directory <> ("/" <> name)))

-- `public_ref`
unfoldable pub public_ref : Bool → SecretArtifact → Fields
public_ref available a = field "available" (bool available) (
    field "returned" (bool false) (
      field "secretFile" (text a.secret_file) (
        field "contractFile" (text a.contract_file) (
          field "env" (obj (field "ATH_SECRET_FILE" (text a.secret_file) end))
            (field "permissions" (text "0600") end)))))

module _ ⦃py : Runtime⦄ where
  -- `_safe_path_token`
  unfoldable pub safe_path_token : String → String
  unfolding keep_chars
  safe_path_token value =
      let cleaned =
        keep_chars (λ c. py.is_alnum c || nat_eq (code c) b'-' || nat_eq (code c) b'_') value in
      if cleaned == "" then "unknown" else cleaned

  -- `_artifact_for`
  unfoldable pub artifact_for : String → String → SecretArtifact
  unfolding safe_path_token
  artifact_for root thread_key =
      let directory = safe_path_token thread_key in
      record {
        thread_key = thread_key;
        directory = directory;
        secret_file = path_of root directory "secret.txt";
        contract_file = path_of root directory "contract.json";
      }

  -- the contract file's content
  unfoldable pub contract_of : Handle → String → String → Fields
  contract_of h event_url secret_file = field "version" (text "async-thread-secret/v1") (
      field "threadKey" (text h.thread_key) (
        field "producerId" (text h.producer_id) (
          field "allowedEventTypes" (arr (texts h.allowed_event_types)) (
            field "eventUrl" (text event_url) (
              field "secretFile" (text secret_file) (
                field "requiredHeaders"
                  (arr (
                    texts (
                      "Content-Type: application/json" ∷ "X-Hermes-Signature-256: sha256=<hex>"
                      ∷ [])))
                  (field "signature"
                    (text
                      "hex_hmac_sha256(secret_file_text_without_trailing_newline, exact_utf8_request_body_bytes)")
                    (field "notes"
                      (arr (
                        texts (
                          "secret.txt is written without a trailing newline; use its exact file text as the HMAC key."
                          ∷ "Do not paste the secret into chat, prompts, logs, issue comments, or event payloads."
                          ∷ "Use ATH_SECRET_FILE or another local secret manager reference when running producer code."
                          ∷ [])))
                      end))))))))

  -- `write_secret_artifact`
  unfoldable pub write_secret_artifact :
      Handle → String → String → FileStore → SecretArtifact × FileStore
  unfolding artifact_for contract_of
  write_secret_artifact h event_url root fs =
      let artifact = artifact_for root h.thread_key in
      let directory = artifact.directory in
      let contract =
        py.json_dumps_indented (obj (contract_of h event_url artifact.secret_file)) <> "\n" in
      (
        artifact,
        write_text directory "contract.json" contract
            (write_text directory "secret.txt" h.secret (make_directory directory fs)),
      )

  -- `describe_secret_artifact`
  unfoldable pub describe_secret_artifact :
      Handle → String → String → Bool → FileStore → Fields × FileStore
  unfolding write_secret_artifact artifact_for public_ref
  describe_secret_artifact h event_url root ensure fs =
      let written = write_secret_artifact h event_url root fs in
      let artifact = artifact_for root h.thread_key in
      if ensure then (public_ref true written.0, written.1) else (
        public_ref
            (exists artifact.directory "secret.txt" fs
              && exists artifact.directory "contract.json" fs)
            artifact,
        fs,
      )

  -- `remove_secret_artifact`: whether a file was removed, and the files after it
  unfoldable pub remove_secret_artifact : String → FileStore → Bool × FileStore
  unfolding safe_path_token
  remove_secret_artifact thread_key fs =
      let directory = safe_path_token thread_key in
      (
        exists directory "secret.txt" fs || exists directory "contract.json" fs,
        remove_directory directory
            (unlink directory "contract.json" (unlink directory "secret.txt" fs)),
      )
