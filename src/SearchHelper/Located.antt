-- ===== src/SearchHelper/Located.antt =====
-- When `find_libcuda` of src/utils/c/search_helper.c gives a path.
use cuda_autocompat.Base.{
  ◌<◌, ◌∙◌, ◌≡◌, refl, Bool, true, false, Option, some, none, arith, c_string, subst, length, Bytes,
  zeros, if◌then◌else◌,
}
use cuda_autocompat.PathUtils.{path_max}
use cuda_autocompat.SearchHelper.{
  Pipe, CloseStatus, find_libcuda, find_search_helper, success, failure, close_error,
}
use cuda_autocompat.SearchHelper.Read.{line_of, delivered, answer, find_libcuda-answer}

answer-located :
    (p : Option Pipe)
    → 0 < (answer p).0
    → (stream : Bytes) × (p ≡ some (record { stream = stream; status = success }))
      × (0 < length (line_of stream))
      × (answer p ≡ delivered (line_of stream))
answer-located none h = absurd (omega (arith, h))
answer-located (some pipe) h = go pipe.status refl h
  where
    go :
        (status : CloseStatus)
        → pipe.status ≡ status
        → 0 < (answer (some (record { stream = pipe.stream; status = status }))).0
        → (stream : Bytes) × (some pipe ≡ some (record { stream = stream; status = success }))
          × (0 < length (line_of stream))
          × (answer (some pipe) ≡ delivered (line_of stream))
    go success e h = rw e (pipe.stream, refl, h, refl)
    go failure e h = absurd (omega (arith, h))
    go close_error e h = absurd (omega (arith, h))

-- A length that is not 0 comes from a helper that was found, ended with status 0 and printed it.
pub find_libcuda-located :
    (access : Bytes → Bool) (popen : Bytes → Option Pipe) (self_path path_env : Option Bytes)
    (buf : Bytes)
    → 0 < (find_libcuda access popen self_path path_env buf).0
    → (helper : Bytes) × (stream : Bytes) × (find_search_helper access self_path path_env buf
        ≡ (true, helper))
      × (popen (c_string helper) ≡ some (record { stream = stream; status = success }))
      × (0 < length (line_of stream))
      × (find_libcuda access popen self_path path_env buf ≡ delivered (line_of stream))
find_libcuda-located access popen self_path path_env buf h =
    let known = find_libcuda-answer access popen self_path path_env buf in
    go (find_search_helper access self_path path_env buf) refl known (subst (λ r. 0 < r.0) known h)
  where
    go :
        (r : Bool × Bytes)
        → find_search_helper access self_path path_env buf ≡ r
        → find_libcuda access popen self_path path_env buf
          ≡ (if r.0 then answer (popen (c_string r.1)) else (0, zeros path_max))
        → 0 < (if r.0 then answer (popen (c_string r.1)) else (0, zeros path_max)).0
        → (helper : Bytes) × (stream : Bytes) × (find_search_helper access self_path path_env buf
            ≡ (true, helper))
          × (popen (c_string helper) ≡ some (record { stream = stream; status = success }))
          × (0 < length (line_of stream))
          × (find_libcuda access popen self_path path_env buf ≡ delivered (line_of stream))
    go (false, path) e known h = absurd (omega (arith, h))
    go (true, path) e known h =
        let (stream, ran, printed, same) = answer-located (popen (c_string path)) h in
        (path, stream, e, ran, printed, known ∙ same)
