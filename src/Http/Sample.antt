-- ===== src/Http/Sample.antt =====
-- A concrete web framework with the documented behaviour: it shows that the laws can be met, and
-- runs in the tests.
use yral_onboarding_hello_wo.Prelude.{
  ℕ, ◌≡◌, ap, ◌==◌, refl, none, some, [], ◌∷◌, ◌++◌, Bool, inl, inr, sym, Bool-cases, ◌&&◌, true,
  leb, Option, Text, codes, text_eq, text_eq_refl, if◌then◌else◌,
}
use yral_onboarding_hello_wo.Domain.{HealthResponse}
use yral_onboarding_hello_wo.Http.Framework.{
  Axum, IsAxum, Headers, Routes, Dispatch, matched, unmatched, find_route,
}

pub record Page : Type 0 where
  pub status : ℕ
  pub headers : Headers Text
  pub body : Text

abbrev find_header : Text → Headers Text → Option Text
find_header name [] = none
find_header name ((n, v) ∷ hs) = if text_eq n name then some v else find_header name hs

abbrev all_visible : Text → Bool
all_visible [] = true
all_visible (c ∷ s) = leb 32 c && all_visible s

abbrev page : ℕ → Text → Page
page n t = record { status = n; headers = []; body = t }

-- A health report as one text: each byte of the status behind a one, and a zero before the storage.
abbrev render_after : Text → Text → Text
render_after storage [] = 0 ∷ storage
render_after storage (c ∷ s) = 1 ∷ c ∷ render_after storage s

abbrev pub render : HealthResponse → Text
render h = render_after h.storage h.status

abbrev with_byte : ℕ → HealthResponse → HealthResponse
with_byte c h = record h { status = c ∷ h.status }

abbrev pub unrender : Text → HealthResponse
unrender [] = record { status = []; storage = [] }
unrender (mark ∷ []) = record { status = []; storage = [] }
unrender (mark ∷ c ∷ s) =
    let rest = unrender s in
    if mark == 0 then record { status = []; storage = c ∷ s } else with_byte c rest

unrender-render_after :
    (storage status : Text)
    → unrender (render_after storage status) ≡ record { status = status; storage = storage }
unrender-render_after [] [] = refl
unrender-render_after (c ∷ s) [] = refl
unrender-render_after storage (c ∷ s) = ap (with_byte c) (unrender-render_after storage s)

pub unrender-render : (h : HealthResponse) → unrender (render h) ≡ h
unrender-render h = unrender-render_after h.storage h.status

abbrev sample_dispatch : Routes → Text → Text → Dispatch Page
sample_dispatch routes method path =
    if text_eq method (codes "GET")
    then (elim (find_route path routes) [ none ↦ unmatched (page 404 []) | some e ↦ matched e ])
    else unmatched (page 405 [])

abbrev pub sample_axum : Axum Page Text
sample_axum = record {
  from_str = λ t. if all_visible t then some t else none;
  text_response = λ t. record {
    status = 200;
    headers = (codes "content-type", codes "text/plain; charset=utf-8") ∷ [];
    body = t;
  };
  json_response = λ h. page 200 (render h);
  with_headers = λ hs r. record r { headers = hs ++ r.headers };
  with_status = λ n r. record r { status = n };
  dispatch = sample_dispatch;
  status = λ r. r.status;
  header = λ name r. find_header name r.headers;
  body = λ r. r.body;
}

pub sample-IsAxum : IsAxum sample_axum
unfolding text_eq
sample-IsAxum = record {
  text_status = λ t. refl;
  text_body = λ t. refl;
  text_header = λ t. refl;
  json_status = λ h. refl;
  with_status_status = λ n r. refl;
  with_status_body = λ n r. refl;
  with_status_header = λ n name r. refl;
  with_headers_status = λ hs r. refl;
  with_headers_body = λ hs r. refl;
  with_headers_header = λ name v r. rw (text_eq_refl name);
  dispatch_get = λ routes path e found. rw (text_eq_refl (codes "GET")) (rw found);
}

pub from_str_same : (t v : Text) → sample_axum.from_str t ≡ some v → v ≡ t
from_str_same t v h = elim (Bool-cases (all_visible t)) [
  | inl visible ↦ ap (λ o. elim o [ none ↦ t | some u ↦ u ]) (sym (rw visible at h))
  | inr hidden ↦ absurd (cc (rw hidden at h))
]
