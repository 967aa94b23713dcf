-- ===== src/Firmware/Fetching.antt =====
-- trusted_applet/update.go: requests over HTTP.
use armored_witness_applet.Prelude.{ℕ, ◌≡◌, List, Option, some, ◌↔◌, arith, Text}
use armored_witness_applet.Result.{ok}
use armored_witness_applet.Firmware.{Response, read_all, read_http, fetch}

module _ {U Q : Type 0} (new_request : U → Option Q) (send : ℕ → Q → Option Response)
    (resolve : U → Text → Option U) (root : U) (timeout : ℕ) (p : Text) where
  -- A file is fetched exactly where its URL is valid, the request is answered, and its status is
  -- 200; what is returned is what has arrived of the body, be it cut or not.
  pub fetch_lem :
      (bin : List ℕ)
      → (fetch new_request send resolve root timeout p ≡ ok bin) ↔ (
          (u : U) × (req : Q) × (resp : Response) × (resolve root p ≡ some u)
          × (new_request u ≡ some req)
          × (send timeout req ≡ some resp)
          × (resp.status_code ≡ 200)
          × (resp.body ≡ bin))
  unfolding fetch read_http read_all
  fetch_lem bin = grind arith
