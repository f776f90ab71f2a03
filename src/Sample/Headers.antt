-- ===== src/Sample/Headers.antt =====
-- The header maps and the context variables in memory meet their contracts.
use fastapi_polyrepo_templat.Prelude.{
  ◌≡◌, ◌≢◌, ◌∙◌, sym, All, refl, [], ◌∷◌, Text, lower, text_eq, text_eq_iff, if◌then◌else◌, arith,
  some,
}
use fastapi_polyrepo_templat.World.{HeaderList}
use fastapi_polyrepo_templat.Contracts.{ContextContract, HeaderContract}
use fastapi_polyrepo_templat.Sample.{Health, libraries, header_get, header_set, without}

abbrev pub context_contract : (servers : Health) → ContextContract (libraries servers)
context_contract servers = record {
  get-bind = λ pairs c k. refl;
  get-reset = λ before pairs after k. refl;
}

header_get-without :
    (k j : Text) (headers : HeaderList)
    → header_get j (without k headers) ≡ (
        if text_eq (lower k) (lower j)
        then header_get j (without k headers)
        else header_get j headers)
unfolding without header_get
header_get-without k j [] = ground arith
header_get-without k j ((i, v) ∷ headers) = ground (
  arith,
  header_get-without k j headers,
  text_eq_iff (lower k) (lower j),
  text_eq_iff (lower i) (lower j),
  text_eq_iff (lower i) (lower k),
)

lower_twice : (s : Text) → lower (lower s) ≡ lower s
unfolding lower
lower_twice [] = refl
lower_twice (c ∷ s) = ground (arith, lower_twice s)

pub header_get-header_set :
    (headers : HeaderList) (k v j : Text)
    → header_get j (header_set k v headers)
      ≡ (if text_eq (lower k) (lower j) then some v else header_get j headers)
unfolding header_get header_set
header_get-header_set headers k v j =
    rw (lower_twice k) (ground (arith, header_get-without k j headers))

without-absent :
    (k name : Text) (headers : HeaderList)
    → All (λ h. lower h.0 ≢ name) headers
    → All (λ h. lower h.0 ≢ name) (without k headers)
unfolding without
without-absent k name [] h = tt
without-absent k name ((j, v) ∷ headers) (h, hs) = ground (arith, without-absent k name headers hs)

pub header_set-absent :
    (headers : HeaderList) (k v name : Text)
    → lower k ≢ name
    → All (λ h. lower h.0 ≢ name) headers
    → All (λ h. lower h.0 ≢ name) (header_set k v headers)
unfolding header_set
header_set-absent headers k v name n hs =
    ((λ e. n (sym (lower_twice k) ∙ e)), without-absent k name headers hs)

abbrev pub header_contract : (servers : Health) → HeaderContract (libraries servers)
header_contract servers = record { get-set = header_get-header_set; set-absent = header_set-absent }
