-- ===== src/Api/Call.antt =====
-- source/api/onebot_11/api_impl.h, `CallApi`: the shape of a call.
use migang_bot_cpp.Base.{
  ◌≡◌, refl, ap, ◌∙◌, some, List, [], ◌∷◌, String, codes, string_eq, lookup, arith,
}
use migang_bot_cpp.Json.{JsonLib}

module _ (lib : JsonLib) where
  open lib use {Json, null, of_string, at, put, at-put}

  -- `Json{{key, value}, …}` with keys that differ: the null value if there are none.
  unfoldable pub object_of : List (String × Json) → Json
  object_of [] = null
  object_of ((k, v) ∷ fields) = put (object_of fields) k v

  -- `CallApi`
  unfoldable pub call_api : String → Json → Json
  unfolding object_of
  call_api action params =
      object_of (("action", of_string (codes action)) ∷ ("params", params) ∷ [])

  -- The message of a call, as its receiver reads it: the name of the action, and the value of each
  -- of the given fields of the parameters.
  pub record IsCall (action : String) (fields : List (String × Json)) (msg : Json) : Type 0 where
    pub names : at msg "action" ≡ of_string (codes action)
    pub carries : (k : String) (v : Json) → lookup k fields ≡ some v → at (at msg "params") k ≡ v

  at-object_of :
      (fields : List (String × Json)) (k : String) (v : Json)
      → lookup k fields ≡ some v
      → at (object_of fields) k ≡ v
  unfolding object_of lookup
  at-object_of [] k v h = cc
  at-object_of ((j, w) ∷ fields) k v h =
      ground (arith, at-put (object_of fields) j k w, at-object_of fields k v)

  pub call_api-IsCall :
      (action : String) (fields : List (String × Json))
      → IsCall action fields (call_api action (object_of fields))
  unfolding call_api lookup
  call_api-IsCall action fields = record {
    names = at-object_of parts "action" _ refl;
    carries =
        λ k v h. ap (λ p. at p k) (at-object_of parts "params" _ refl) ∙ at-object_of fields k v h;
  }
    where
      parts : List (String × Json)
      parts = ("action", of_string (codes action)) ∷ ("params", object_of fields) ∷ []
