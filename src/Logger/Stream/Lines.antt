-- ===== src/Logger/Stream/Lines.antt =====
-- Reading back the stream that the child loggers of src/app/logger/log_manager.py write.
use fastapi_polyrepo_templat.Prelude.{
  ℕ, ◌==◌, ◌≡◌, refl, ap, ◌∙◌, Bool, true, Option, none, some, List, [], ◌∷◌, ◌++◌, map, Text, All,
  append_assoc, append-nil, sym, arith, if◌then◌else◌, leb, ◌&&◌,
}
use fastapi_polyrepo_templat.Effects.{BaseException}
use fastapi_polyrepo_templat.World.{Libraries, LogCall, LogLevel}
use fastapi_polyrepo_templat.Utf8.{encode, decode, decode-encode}
use fastapi_polyrepo_templat.Logger.{level_number}
use fastapi_polyrepo_templat.Logger.LogManager.{EventDict}
use fastapi_polyrepo_templat.Logger.Json.{dumps, loads}
use fastapi_polyrepo_templat.Logger.Json.Strings.{IsPrinting}
use fastapi_polyrepo_templat.Logger.Json.Objects.{loads-dumps}
use fastapi_polyrepo_templat.Logger.Json.Values.{all_as_read}
use fastapi_polyrepo_templat.Logger.Stream.{
  all_encodable, serialize, Writers, LogManager, processed, emit, emit_all,
}
use fastapi_polyrepo_templat.Logger.Stream.Encoded.{
  dumps-encode-IsPrinting, all_encodable-IsCodePoint,
}

-- What structlog documents of its filter and of its writer.
pub record WritersContract (lib : Libraries) (structlog : Writers lib) : Type 0 where
  pub is_enabled :
      (min_level level : LogLevel)
      → structlog.is_enabled min_level level ≡ leb (level_number min_level) (level_number level)
  pub write_line :
      (line stream : List ℕ) → structlog.write_line line stream ≡ stream ++ (line ++ (10 ∷ []))

-- The lines of a stream, without their ends. What stands behind the last end is a line too, if
-- there is something.
abbrev in_line : ℕ → List (List ℕ) → List (List ℕ)
in_line b [] = (b ∷ []) ∷ []
in_line b (line ∷ lines) = (b ∷ line) ∷ lines

unfoldable pub split_lines : List ℕ → List (List ℕ)
split_lines [] = []
split_lines (b ∷ bytes) =
    let rest = split_lines bytes in if b == 10 then [] ∷ rest else in_line b rest

abbrev loads_decoded : Option Text → Option EventDict
loads_decoded none = none
loads_decoded (some s) = loads s

abbrev read_line : List ℕ → Option EventDict
read_line line = loads_decoded (decode line)

-- What a reader of the stream finds, line by line.
unfoldable pub read_records : List ℕ → List (Option EventDict)
unfolding split_lines
read_records stream = map read_line (split_lines stream)

module _ (lib : Libraries) (structlog : Writers lib) (manager : LogManager) where
  -- The level of the call is enough, and UTF-8 has all characters of its record.
  unfoldable pub is_written : LogCall lib → Bool
  unfolding all_encodable dumps
  is_written call =
      leb (level_number manager.min_level) (level_number call.level)
      && all_encodable (dumps structlog.fallback (processed lib structlog manager call))

  -- The records of the calls that are written.
  unfoldable pub records : List (LogCall lib) → List (Option EventDict)
  unfolding is_written all_as_read
  records [] = []
  records (call ∷ calls) =
      let rest = records calls in
      if is_written call
      then some (all_as_read structlog.fallback (processed lib structlog manager call)) ∷ rest
      else rest

split_lines_step :
    (line rest : List ℕ)
    → All IsPrinting line
    → split_lines (line ++ (10 ∷ rest)) ≡ line ∷ split_lines rest
unfolding split_lines
split_lines_step [] rest h = refl
split_lines_step (b ∷ line) rest h = ground (arith, split_lines_step line rest h.1)

read_line-serialized :
    (fallback : BaseException → Text) (d : EventDict)
    → all_encodable (dumps fallback d) ≡ true
    → read_line (encode (dumps fallback d)) ≡ some (all_as_read fallback d)
read_line-serialized fallback d h =
    ap loads_decoded
      (decode-encode (dumps fallback d) (all_encodable-IsCodePoint (dumps fallback d) h))
    ∙ loads-dumps fallback d

split_lines-line :
    (line rest : List ℕ)
    → All IsPrinting line
    → split_lines ((line ++ (10 ∷ [])) ++ rest) ≡ line ∷ split_lines rest
split_lines-line line rest h =
    ap split_lines (append_assoc line (10 ∷ []) rest) ∙ split_lines_step line rest h

read_records-line :
    (fallback : BaseException → Text) (d : EventDict) (rest : List ℕ)
    → all_encodable (dumps fallback d) ≡ true
    → read_records ((encode (dumps fallback d) ++ (10 ∷ [])) ++ rest)
      ≡ some (all_as_read fallback d) ∷ read_records rest
unfolding read_records
read_records-line fallback d rest h =
    ap (map read_line)
      (split_lines-line (encode (dumps fallback d)) rest (dumps-encode-IsPrinting fallback d))
    ∙ ap (λ r. r ∷ map read_line (split_lines rest)) (read_line-serialized fallback d h)

module _ (lib : Libraries) (structlog : Writers lib) (contract : WritersContract lib structlog)
    (manager : LogManager) where
  -- The lines that a call adds.
  line_of : LogCall lib → List ℕ
  unfolding is_written
  line_of call =
      if is_written lib structlog manager call
      then encode (dumps structlog.fallback (processed lib structlog manager call)) ++ (10 ∷ [])
      else []

  emit-line_of :
      (call : LogCall lib) (stream : List ℕ)
      → (emit lib structlog manager call stream).1 ≡ stream ++ line_of call
  unfolding emit serialize is_written line_of
  emit-line_of call stream = ground (
    arith,
    contract.is_enabled manager.min_level call.level,
    append-nil stream,
    contract.write_line (encode (dumps structlog.fallback (processed lib structlog manager call)))
        stream,
  )

  -- The stream that was there, and the lines of the calls.
  lines_of : List (LogCall lib) → List ℕ
  unfolding line_of
  lines_of [] = []
  lines_of (call ∷ calls) = line_of call ++ lines_of calls

  emit_all-lines_of :
      (calls : List (LogCall lib)) (stream : List ℕ)
      → emit_all lib structlog manager calls stream ≡ stream ++ lines_of calls
  unfolding emit_all lines_of
  emit_all-lines_of [] stream = sym (append-nil stream)
  emit_all-lines_of (call ∷ calls) stream =
      ap (emit_all lib structlog manager calls) (emit-line_of call stream)
      ∙ emit_all-lines_of calls (stream ++ line_of call)
      ∙ append_assoc stream (line_of call) (lines_of calls)

  read_records-lines_of :
      (calls : List (LogCall lib))
      → read_records (lines_of calls) ≡ records lib structlog manager calls
  unfolding read_records records lines_of line_of is_written
  read_records-lines_of [] = refl
  read_records-lines_of (call ∷ calls) =
      let d = processed lib structlog manager call in
      let line = read_records-line structlog.fallback d (lines_of calls) in
      ground (arith, line, read_records-lines_of calls)

  -- If the filter and the writer of structlog do what they document, then after any calls of
  -- child loggers on an empty stream, a reader that splits the stream at line feeds and decodes
  -- and parses each line finds exactly the records, in order, of the calls whose level is enough
  -- and whose record UTF-8 can write; of an exception it finds JSONRenderer's text.
  pub read_records-emit_all :
      (calls : List (LogCall lib))
      → read_records (emit_all lib structlog manager calls []) ≡ records lib structlog manager calls
  read_records-emit_all calls =
      ap read_records (emit_all-lines_of calls []) ∙ read_records-lines_of calls
