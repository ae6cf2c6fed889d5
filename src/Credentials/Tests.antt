-- ===== src/Credentials/Tests.antt =====
-- Keys, two items and an environment.
use Prim.Native.Char.{Char}
use orchestrator_cli.Common.{String, true, none, some, [], ◌∷◌, ◌==◌, if◌then◌else◌, ◌≡◌, refl, ◌↔◌}
use orchestrator_cli.Common.Strings.{cut}
use orchestrator_cli.Credentials.Keys.{
  ok, err, not_found, no_credential, valid_key_component, slashed, normalize_component, key_of,
  split_key,
}
use orchestrator_cli.Credentials.Canonical.{split_key-key_of, split_key_iff}
use orchestrator_cli.Credentials.Items.{
  ItemMap, Secret, find_item, put_item, item_for, secret_of, get_secret, set_secret, delete_secret,
  drop_item, resolve,
}
use orchestrator_cli.Credentials.Laws.{
  get-set_secret, get-delete_secret, resolve_order, IsFirst, AllEmpty,
}

abbrev ascii : Char → Char
ascii c = c

made : key_of ascii " Lambda" "API-Key" ≡ ok "lambda/api_key"
unfolding key_of normalize_component valid_key_component
made = refl

split_key-key_of_example :
    (valid_key_component (normalize_component ascii " Lambda") ≡ true)
    × (valid_key_component (normalize_component ascii "API-Key") ≡ true)
    × (split_key ascii "lambda/api_key"
        ≡ ok (normalize_component ascii " Lambda", normalize_component ascii "API-Key"))
split_key-key_of_example = split_key-key_of ascii " Lambda" "API-Key" "lambda/api_key" made

split_key_iff_example : (split_key ascii "lambda/api_key" ≡ ok ("lambda", "api_key")) ↔ (
    (valid_key_component "lambda" ≡ true)
    × (valid_key_component "api_key" ≡ true)
    × (◌≡◌ {A = String} "lambda/api_key" (slashed "lambda" "api_key")))
split_key_iff_example = split_key_iff ascii "lambda/api_key" "lambda" "api_key"

abbrev two_items : ItemMap
two_items =
    ("lambda/api_key", record { value = "s1"; created_at = some 5; updated_at = some 5 })
    ∷ ("gcp/token", record { value = "s2"; created_at = some 6; updated_at = some 6 })
    ∷ []

was_set :
    set_secret ascii two_items "lambda/api_key" "s3" 9
    ≡ ok (
        put_item "lambda/api_key"
          (item_for (find_item "lambda/api_key" two_items) "s3" 9)
          two_items)
unfolding set_secret split_key cut key_of normalize_component valid_key_component
was_set = refl

get-set_secret_example :
    get_secret ascii
      (put_item "lambda/api_key" (item_for (find_item "lambda/api_key" two_items) "s3" 9) two_items)
      "gcp/token"
    ≡ (if "lambda/api_key" == "gcp/token"
        then ok
            (secret_of "lambda/api_key" (item_for (find_item "lambda/api_key" two_items) "s3" 9))
        else get_secret ascii two_items "gcp/token")
get-set_secret_example =
    get-set_secret ascii two_items _ "lambda/api_key" "s3" 9 "gcp/token" was_set

was_deleted : delete_secret ascii two_items "gcp/token" ≡ ok (drop_item "gcp/token" two_items)
unfolding delete_secret split_key cut key_of normalize_component valid_key_component find_item
was_deleted = refl

get-delete_secret_example :
    ((s : Secret) × (get_secret ascii two_items "gcp/token" ≡ ok s))
    × (get_secret ascii (drop_item "gcp/token" two_items) "lambda/api_key" ≡ (
        if "gcp/token" == "lambda/api_key"
        then err not_found
        else get_secret ascii two_items "lambda/api_key"))
get-delete_secret_example =
    get-delete_secret ascii two_items (drop_item "gcp/token" two_items) "gcp/token" "lambda/api_key"
      was_deleted

abbrev demo_env : String → String
demo_env name = if name == "LAMBDA_API_KEY" then "from-env" else ""

resolve_order_example :
    ((v : String)
      → IsFirst demo_env ("OTHER" ∷ "LAMBDA_API_KEY" ∷ []) v
      → resolve ascii demo_env
          (some (get_secret ascii two_items))
          " Lambda"
          "API-Key"
          ("OTHER" ∷ "LAMBDA_API_KEY" ∷ [])
        ≡ ok (record { key = "lambda/api_key"; value = v; created_at = none; updated_at = none }))
    × (AllEmpty demo_env ("OTHER" ∷ "LAMBDA_API_KEY" ∷ [])
        → (s : Secret)
        → (resolve ascii demo_env
              (some (get_secret ascii two_items))
              " Lambda"
              "API-Key"
              ("OTHER" ∷ "LAMBDA_API_KEY" ∷ [])
            ≡ ok s)
          ↔ (get_secret ascii two_items "lambda/api_key" ≡ ok s))
    × (AllEmpty demo_env ("OTHER" ∷ "LAMBDA_API_KEY" ∷ [])
        → (resolve ascii demo_env
              (some (get_secret ascii two_items))
              " Lambda"
              "API-Key"
              ("OTHER" ∷ "LAMBDA_API_KEY" ∷ [])
            ≡ err (no_credential "lambda/api_key"))
          ↔ (get_secret ascii two_items "lambda/api_key" ≡ err not_found))
resolve_order_example =
    resolve_order ascii demo_env two_items " Lambda" "API-Key" "lambda/api_key" made
      ("OTHER" ∷ "LAMBDA_API_KEY" ∷ [])
