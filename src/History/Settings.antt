-- ===== src/History/Settings.antt =====
-- What services/history/main.cc takes from the environment; `getenv` is the environment.
use Prim.Native.String.{◌++◌}
use two_services.Base.{String, Option, none, some}

pub record PgSettings : Type 0 where
  pub host : String
  pub port : String
  pub dbname : String
  pub user : String
  pub password : String

abbrev pub text_or : String → Option String → String
text_or default none = default
text_or default (some text) = text

-- the constructor
unfoldable pub pg_settings : (String → Option String) → PgSettings
pg_settings getenv = record {
  host = text_or "localhost" (getenv "POSTGRES_HOST");
  port = text_or "5432" (getenv "POSTGRES_PORT");
  dbname = text_or "mydb" (getenv "POSTGRES_DB");
  user = text_or "admin" (getenv "POSTGRES_USER");
  password = text_or "admin" (getenv "POSTGRES_PASSWORD");
}

unfoldable pub make_db_connection_string : PgSettings → String
make_db_connection_string env =
    "host="
    ++ (env.host
        ++ (" port="
            ++ (env.port
                ++ (" dbname="
                    ++ (env.dbname
                        ++ (" user=" ++ (env.user ++ (" password=" ++ env.password))))))))

-- GetServerPortOr50051
unfoldable pub server_port : (String → Option String) → String
server_port getenv = text_or "50051" (getenv "SERVER_PORT")
