-- ===== src/Startup/Url.antt =====
-- Where the database URL of control-plane/app/config.py comes from.
use Prim.Native.String.{◌++◌}
use feature_flags.Json.{Json}
use feature_flags.Base.Maybe.{Ensures, Ensures-bind, Ensures-some}
use feature_flags.Base.{
  ◌⊎◌, ◌≢◌, ◌==◌, inl, inr, Option, String, Bool-cases, some, none, ◌≡◌, refl, text_key, eq_iff, ap,
  ◌∙◌, sym, false,
}
use feature_flags.Startup.Config.{
  Python, Env, index, build_database_url, assembled_url, given_or, auth_part, password_or_empty,
}

-- A variable that is not set, or empty.
abbrev pub Unset : Option String → Type 0
Unset o = (o ≡ none) ⊎ (o ≡ some "")

module _ (python : Python) (env : Env) where
  open python use {str_of}

  -- The login of the URL: the user, and the password where one is set.
  abbrev pub IsLogin : Json → String → Type 0
  IsLogin user login =
      (Unset (env "DATABASE_PASSWORD") × (login ≡ str_of user))
      ⊎ ((password : String) × (env "DATABASE_PASSWORD" ≡ some password)
          × (password ≢ "")
          × (login ≡ str_of user ++ ":" ++ password))

  -- The URL of the parts that the section `database` of the document has.
  pub record Assembled (db : Json) (url : String) : Type 0 where
    pub user : Json
    pub host : Json
    pub port : Json
    pub name : Json
    pub login : String
    pub user_at : index "user" db ≡ some user
    pub host_at : index "host" db ≡ some host
    pub port_at : index "port" db ≡ some port
    pub name_at : index "name" db ≡ some name
    pub is_login : IsLogin user login
    pub is_url :
        url
        ≡ "postgresql+psycopg://"
          ++ login
          ++ "@"
          ++ str_of host
          ++ ":"
          ++ str_of port
          ++ "/"
          ++ str_of name

  -- The URL is `DATABASE_URL` where that is set and not empty, and else the assembled one.
  abbrev pub IsUrl : Json → String → Type 0
  IsUrl db url =
      ((env "DATABASE_URL" ≡ some url) × (url ≢ ""))
      ⊎ (Unset (env "DATABASE_URL") × Assembled db url)

  not_empty : (s : String) → (s == "") ≡ false → s ≢ ""
  not_empty s h same = cc (sym h ∙ (eq_iff s "").1 same)

  auth_part-IsLogin :
      (user : Json)
      → IsLogin user (
          auth_part python env
            (str_of user)
            (password_or_empty python env (env "DATABASE_PASSWORD")))
  auth_part-IsLogin user = go (env "DATABASE_PASSWORD") refl
    where
      go :
          (o : Option String)
          → env "DATABASE_PASSWORD" ≡ o
          → IsLogin user (auth_part python env (str_of user) (password_or_empty python env o))
      go none h = inl (inl h, refl)
      go (some w) h = elim (Bool-cases (w == "")) [
        | inl empty ↦ inl (inr (h ∙ ap some ((eq_iff w "").0 empty)), rw empty refl)
        | inr given ↦ inr (w, h, not_empty w given, rw given refl)
      ]

  assembled_url-Assembled : (db : Json) → Ensures (Assembled db) (assembled_url python env db)
  unfolding assembled_url
  assembled_url-Assembled db = Ensures-bind (index "user" db) _ λ user eu.
      Ensures-bind (index "host" db) _ λ host eh. Ensures-bind (index "port" db) _ λ port ep.
        Ensures-bind (index "name" db) _ λ name en. Ensures-some _ (record {
          user = user;
          host = host;
          port = port;
          name = name;
          login =
              auth_part python env (str_of user)
                (password_or_empty python env (env "DATABASE_PASSWORD"));
          user_at = eu;
          host_at = eh;
          port_at = ep;
          name_at = en;
          is_login = auth_part-IsLogin user;
          is_url = refl;
        })

  pub build_database_url-IsUrl :
      (db : Json) {url : String} → build_database_url python env db ≡ some url → IsUrl db url
  unfolding build_database_url
  build_database_url-IsUrl db {url} = go (env "DATABASE_URL") refl
    where
      assembled : assembled_url python env db ≡ some url → Assembled db url
      assembled h = (assembled_url-Assembled db).at url h

      go :
          (o : Option String)
          → env "DATABASE_URL" ≡ o
          → given_or python env o (assembled_url python env db) ≡ some url
          → IsUrl db url
      go none unset h = inr (inl unset, assembled h)
      go (some u) set h = elim (Bool-cases (u == "")) [
        | inl empty ↦
            inr (inr (set ∙ ap some ((eq_iff u "").0 empty)), assembled (sym (rw empty refl) ∙ h))
        | inr given ↦
            let is : some u ≡ some url = sym (rw given refl) ∙ h in
            inl (set ∙ is, λ same. not_empty u given (cc (is, same)))
      ]
