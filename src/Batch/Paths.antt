-- ===== src/Batch/Paths.antt =====
-- The names and sizes of files: safe_path and validate_files of selfhost_models/batch.py. The
-- functions of unicodedata and the search in bytes are the environment's. A text that cannot be
-- encoded in UTF-8 is not a String here.
use selfhost_models.Prelude.{
  ℕ, String, Bool, false, ◌&&◌, ◌||◌, not, List, [], ◌∷◌, ◌++◌, length, take, ltb, eqb, is_some,
  ◌==◌, if◌then◌else◌,
}
use selfhost_models.Sql.{exists, total}
use selfhost_models.Action.{Result, ok, err, scheduler}
use selfhost_models.Schema.Text.{codes, strip}
use selfhost_models.Protocol.Manifest.{split, is_dots}
use selfhost_models.Batch.{Env, File}

abbrev starts : ℕ → List ℕ → Bool
starts c [] = false
starts c (d ∷ ds) = eqb c d

abbrev has : ℕ → List ℕ → Bool
has c cs = exists (λ d. eqb d c) cs

-- a control character, DEL or a format character
unfoldable pub is_hidden : Env → ℕ → Bool
is_hidden env c = ltb c 32 || (eqb c 127 || env.is_format c)

-- p.casefold() in {...}
unfoldable pub is_credential : String → Bool
is_credential p =
    p == ".ssh"
    || (p == ".env"
        || (p == "id_rsa" || (p == "id_ed25519" || (p == "credentials" || p == "secrets.toml"))))

-- the text of code points, for casefold
unfoldable pub unsafe_part : Env → List ℕ → Bool
unsafe_part env p = is_dots p || (starts b'-' p || ltb 240 (env.utf8_bytes p))

unfoldable pub safe_path : Env → String → Result Unit
safe_path env value =
    let cs = codes value in
    if eqb (length cs) 0 || ltb 1024 (length (env.encode value))
    then err (scheduler "unsafe_path" 422)
    else if not (env.nfc value == value)
    then err (scheduler "unsafe_path" 422)
    else if starts b'/' cs || (has b'\\' cs || has b':' cs)
    then err (scheduler "unsafe_path" 422)
    else if exists (is_hidden env) cs
    then err (scheduler "unsafe_path" 422)
    else if exists (λ p. is_credential (env.casefold_part p)) (split cs)
    then err (scheduler "credential_file" 422)
    else if exists (unsafe_part env) (split cs)
    then err (scheduler "unsafe_path" 422)
    else ok tt

-- a folded path that is another's, or a folder of it
unfoldable pub clashes : String → String → Bool
clashes key k =
    key == k
    || (is_some (strip (codes k ++ b'/' ∷ []) (codes key))
        || is_some (strip (codes key ++ b'/' ∷ []) (codes k)))

unfoldable pub private_key : Env → List ℕ → Bool
private_key env content =
    env.contains (codes "-----BEGIN ") (take 256 content)
    && env.contains (codes "PRIVATE KEY-----") (take 256 content)

-- The loop over the files, with the folded paths before.
unfoldable pub check_files : Env → List String → List File → Result Unit
check_files env keys [] = ok tt
check_files env keys (f ∷ fs) =
    let rest = check_files env (env.casefold f.path ∷ keys) fs in
    checked (safe_path env f.path) rest
  where
    checked : Result Unit → Result Unit → Result Unit
    checked (err e) rest = err e
    checked (ok u) rest =
        if private_key env f.content
        then err (scheduler "credential_file" 422)
        else if ltb 16777216 (length f.content)
        then err (scheduler "file_limit" 422)
        else if exists (clashes (env.casefold f.path)) keys
        then err (scheduler "path_conflict" 422)
        else rest

unfoldable pub validate_files : Env → List File → Result Unit
validate_files env files =
    if ltb 100 (length files) || ltb 16777216 (total (λ (f : File). length f.content) files)
    then err (scheduler "input_limit" 422)
    else check_files env [] files
