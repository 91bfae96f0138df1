-- ===== src/Store/Artifacts.antt =====
-- Artifacts and the storage quota: durable_write, budget, put, upload, artifact and artifact_path
-- of selfhost_models/scheduler_store.py, validate_wav of wav.py.
pub mod Wav
use Prim.Native.Nat.{max}
use selfhost_models.Prelude.{
  ℕ, suc, ◌+◌, ◌*◌, ◌-◌, ◌%◌, String, Bool, true, false, ◌&&◌, ◌||◌, not, Option, none, some, List,
  [], ◌∷◌, length, take, leb, ltb, eqb, ◌==◌, if◌then◌else◌,
}
use selfhost_models.Sql.{first, exists, insert, insert_or_replace, total}
use selfhost_models.Action.{
  Result, ok, err, scheduler, integrity, os_error, pure, raise, gets, raise_if, modify, when, ◌>>=◌,
  ◌>>◌,
}
use selfhost_models.Schema.Text.{codes, hex_ref}
use selfhost_models.Tables.{Db, Artifact, Pin, Job}
use selfhost_models.Store.Base.{
  World, Env, Method, ArtifactFile, Receipt, execute, tx, receipt_bytes,
}
use Prim.Native.String

-- "artifact_" + hashlib.sha256(data).hexdigest()
abbrev pub artifact_ref : Env → List ℕ → String
artifact_ref env bytes = String.◌++◌ "artifact_" (env.sha256 bytes)

-- the bytes that artifacts/ and receipts/ take
unfoldable pub used_bytes : World → ℕ
used_bytes w = total (λ f. length f.content) w.artifact_files

unfoldable pub reserved_bytes : World → ℕ
reserved_bytes w = total (λ j. j.reservation) w.jobs

unfoldable pub receipt_file_bytes : Env → World → ℕ
receipt_file_bytes env w = total (receipt_bytes env) w.receipt_files

-- self.budget(c, additional)
unfoldable pub budget : Env → ℕ → Method Unit
budget env additional = do
  over ← gets (λ w.
      ltb env.config.storage_bytes
        (used_bytes w + max (reserved_bytes w) (receipt_file_bytes env w) + additional))
  raise_if over (scheduler "storage_capacity" 429)

-- durable_write of an artifact: the file is replaced whole, or the write fails.
unfoldable pub write_artifact : Env → String → List ℕ → Method Unit
write_artifact env name bytes = do
  raise_if (env.io_fails name) os_error
  modify (λ w. record w {
    artifact_files =
        insert_or_replace (λ f. f.name == name)
          (record { name = name; content = bytes; mtime = env.clock }) w.artifact_files;
  })

unfoldable pub store_artifact : Env → String → List ℕ → String → Option String → Bool → Method Unit
store_artifact env ref bytes media description reserved = do
  when (not reserved) (budget env (length bytes))
  write_artifact env ref bytes
  execute (λ d. record d {
    artifacts =
        insert
          (record {
            ref = ref;
            size = length bytes;
            media = media;
            description = description;
            created = env.clock;
          })
          d.artifacts;
  })

-- self.put(c, data, media, description, reserved=...)
unfoldable pub put : Env → List ℕ → String → Option String → Bool → Method String
put env bytes media description reserved = do
  let ref = artifact_ref env bytes
  known ← gets (λ w. exists (λ (a : Artifact). a.ref == ref) w.artifacts)
  when (not known) (store_artifact env ref bytes media description reserved)
  pure ref

abbrev pub byte_at : List ℕ → ℕ → ℕ
byte_at [] i = 0
byte_at (b ∷ bs) ℕ.zero = b
byte_at (b ∷ bs) (suc i) = byte_at bs i

abbrev pub drop : ℕ → List ℕ → List ℕ
drop ℕ.zero bs = bs
drop (suc n) [] = []
drop (suc n) (b ∷ bs) = drop n bs

abbrev pub equal_bytes : List ℕ → List ℕ → Bool
equal_bytes [] [] = true
equal_bytes (a ∷ as') (b ∷ bs) = eqb a b && equal_bytes as' bs
equal_bytes _ _ = false

-- data[i:j] == text
abbrev pub slice_is : List ℕ → ℕ → String → Bool
slice_is bytes i text = equal_bytes (take (length (codes text)) (drop i bytes)) (codes text)

-- struct.unpack_from("<H", data, i) and ("<I", data, i)
abbrev pub u16 : List ℕ → ℕ → ℕ
u16 bytes i = byte_at bytes i + 256 * byte_at bytes (i + 1)

abbrev pub u32 : List ℕ → ℕ → ℕ
u32 bytes i = u16 bytes i + 65536 * u16 bytes (i + 2)

-- wav.validate_wav: whether it returns
unfoldable pub valid_wav : List ℕ → Bool
valid_wav bytes =
    let n = length bytes in
    let frames = u32 bytes 40 in
    not (
      not (ltb 44 n && leb n 1048576)
      || (not (slice_is bytes 0 "RIFF") || not (slice_is bytes 8 "WAVEfmt ")))
    && not (
        not (eqb (u32 bytes 4) (n - 8))
        || (not (eqb (u32 bytes 16) 16)
            || (not (
                  eqb (u16 bytes 20) 1
                  && (eqb (u16 bytes 22) 1
                      && (eqb (u32 bytes 24) 16000
                          && (eqb (u32 bytes 28) 32000
                              && (eqb (u16 bytes 32) 2 && eqb (u16 bytes 34) 16)))))
                || (not (slice_is bytes 36 "data")
                    || (not (eqb frames (n - 44))
                        || (not (eqb (frames % 2) 0)
                            || not (ltb 0 frames && leb frames 960000)))))))

unfoldable pub upload : Env → List ℕ → String → Option String → Method (String × ℕ)
upload env bytes media description = do
  raise_if (not (media == "audio/wav")) (scheduler "unsupported_media" 400)
  raise_if (not (valid_wav bytes)) (scheduler "invalid_wav" 400)
  ref ← tx env (put env bytes media description false)
  pure (ref, length bytes)

unfoldable pub or_artifact_not_found : Option Artifact → Method Artifact
or_artifact_not_found none = raise (scheduler "artifact_not_found" 404)
or_artifact_not_found (some a) = pure a

unfoldable pub or_os_error : Option ArtifactFile → Method ArtifactFile
or_os_error none = raise os_error
or_os_error (some f) = pure f

-- self.artifact(ref): the bytes, if they are still those that the reference names
unfoldable pub artifact : Env → String → Method (List ℕ × String)
artifact env ref = do
  found ← gets (λ w. first (λ (a : Artifact). a.ref == ref) w.artifacts)
  r ← or_artifact_not_found found
  raise_if (not (hex_ref "artifact_" 64 ref)) (scheduler "invalid_artifact_ref" 400)
  file ← gets (λ w. first (λ (f : ArtifactFile). f.name == ref) w.artifact_files)
  f ← or_os_error file
  raise_if (not (eqb (length f.content) r.size) || not (artifact_ref env f.content == ref))
      (scheduler "artifact_corrupt" 503)
  pure (f.content, r.media)
