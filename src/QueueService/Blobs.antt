-- ===== src/QueueService/Blobs.antt =====
-- `_storage_account_name` and `_cleanup_output_blobs` of queue_service.py.
use Prim.Native.String.{◌++◌ as string_append}
use package.text.Mathlib.Text.{starts_with}
use claimsintelligence.Base.{
  String, Bool, true, false, not, ◌&&◌, ◌||◌, Option, none, some, List, [], ◌∷◌, eqb, if◌then◌else◌,
  ◌==◌, string_key, is_empty, strip, strip_by, rstrip_by, before, skip, reads_as, contains,
}
use claimsintelligence.Exec.{
  Exec, is_type_error, pure, gets, raise, catch, catch_exception, ◌>>=◌, ◌>>◌,
}
use claimsintelligence.QueueService.State.{
  Config, Attr, absent, flag, str, Blob, get_azure_credential, list_blobs, delete_multiple_blobs,
  delete_directory, Reply, blobs, Env, Service, perform,
}

-- urlparse(raw).netloc of a text that begins with its scheme
abbrev netloc : String → String
netloc raw =
    before (λ c. eqb c b'/' || eqb c b'?' || eqb c b'#')
      (if starts_with raw "http://" then skip 7 raw else skip 8 raw)

abbrev first_label : String → String
first_label = before (λ c. eqb c b'.')

-- The plain name, the first label of the URL's host, or the first label of a host name.
unfoldable pub storage_account_name : Config → String
unfolding strip_by before skip
storage_account_name config =
    let raw = strip config.storage_account_name in
    if is_empty raw
    then raw
    else if starts_with raw "http://" || starts_with raw "https://"
    then (let host = netloc raw in if is_empty host then raw else first_label host)
    else if contains raw "."
    then first_label raw
    else raw

-- str(entry.get(key, ""))
abbrev attr_text : Attr → String
attr_text absent = ""
attr_text (flag true) = "True"
attr_text (flag false) = "False"
attr_text (str s) = s

-- bool(entry.get(key, ""))
abbrev attr_truth : Attr → Bool
attr_truth absent = false
attr_truth (flag b) = b
attr_truth (str s) = not (is_empty s)

unfoldable pub is_directory_entry : Blob → Bool
unfolding strip_by reads_as
is_directory_entry entry =
    let mark = strip (attr_text entry.is_directory) in
    let kind =
      strip (attr_text (if attr_truth entry.type then entry.type else entry.resource_type)) in
    reads_as mark "true"
    || reads_as mark "1"
    || reads_as mark "yes"
    || reads_as kind "directory"
    || reads_as kind "dir"
    || reads_as kind "folder"

abbrev or_empty : Option String → String
or_empty none = ""
or_empty (some s) = s

-- The names that are deleted: of blobs that are no directory, and not the folder itself.
unfoldable pub output_blob_names : String → List Blob → List String
output_blob_names output_dir_name [] = []
output_blob_names output_dir_name (b ∷ rest) =
    let name = strip (or_empty b.name) in
    let names = output_blob_names output_dir_name rest in
    if is_empty name || is_directory_entry b || rstrip_by (λ c. eqb c b'/') name == output_dir_name
    then names
    else name ∷ names

-- f"{claim_process_id}/converted".strip("/")
unfoldable pub output_dir : String → String
output_dir claim_process_id =
    strip_by (λ c. eqb c b'/') (string_append claim_process_id "/converted")

unfoldable pub container_name : Config → String
container_name config =
    let batch = or_empty config.app_cps_process_batch in
    if is_empty batch then or_empty config.app_storage_container else batch

abbrev listed : Reply → List Blob
listed (blobs bs) = bs
listed _ = []

module _ (env : Env) where
  -- The directory of an account with a hierarchical namespace; what this raises is logged.
  unfoldable pub delete_output_directory : String → String → Exec Service (Unit {0})
  delete_output_directory container dir =
      catch_exception
        (catch (do perform env (delete_directory container dir true); pure tt)
          λ e.
            if is_type_error e
              && contains e.message "recursive"
              && contains e.message "multiple values"
            then (do perform env (delete_directory container dir false); pure tt)
            else raise e)
        (λ e. pure tt)

  unfoldable pub delete_output_blobs : String → String → List String → Exec Service (Unit {0})
  delete_output_blobs container dir [] = pure tt
  delete_output_blobs container dir (name ∷ names) = do
    perform env (delete_multiple_blobs container (name ∷ names))
    delete_output_directory container dir

  unfoldable pub cleanup_output_blobs : String → Exec Service (Unit {0})
  cleanup_output_blobs claim_process_id = do
    config ← gets (λ (s : Service). s.config)
    let named = storage_account_name config
    let account = if is_empty named then or_empty config.app_storage_account_name else named
    let container = container_name config
    let dir = output_dir claim_process_id
    if is_empty account then pure tt else do
      perform env get_azure_credential
      if is_empty container
          then pure tt
          else catch_exception
              (do
                r ← perform env (list_blobs container (string_append dir "/"))
                delete_output_blobs container dir (output_blob_names dir (listed r)))
              (λ e. pure tt)
