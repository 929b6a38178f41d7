-- ===== src/Config/Database.antt =====
-- internal/interfaces/config/database.go: the database's settings, their check and the connection.
use netwingfs.Prelude.{Bool, false, not, ◌||◌, Option, none, some, [], ◌++◌, if◌then◌else◌}
use netwingfs.Prelude.Bytes.{Bytes, codes, bytes_eq}
use netwingfs.Prelude.Int.{ℤ, pos}
use netwingfs.Utils.Format.{show_int}
use netwingfs.Config.{Check, Outside, fail_if, attempt, ◌>>=◌, ◌>>◌, pure}

pub record DatabaseConfig : Type 0 where
  pub type_name : Bytes
  pub db_type : Bytes
  pub database : Bytes
  pub host : Bytes
  pub port : ℤ
  pub username : Bytes
  pub password : Bytes
  pub enable_ssl : Bool
  pub connect_idle_timeout : Bytes
  pub connect_idle_duration : ℤ
  pub query_timeout : Bytes
  pub query_duration : ℤ
  pub server_max_connections : ℤ

abbrev pub default_database_config : DatabaseConfig
default_database_config = record {
  type_name = codes "sqlite3";
  db_type = [];
  database = codes "database.db";
  host = [];
  port = pos 0;
  username = [];
  password = [];
  enable_ssl = false;
  connect_idle_timeout = codes "1h";
  connect_idle_duration = pos 0;
  query_timeout = codes "5s";
  query_duration = pos 0;
  server_max_connections = pos 32;
}

-- `slices.Contains(allowedDatabaseType, t)`.
unfoldable pub is_allowed : Bytes → Bool
unfolding bytes_eq
is_allowed t =
    bytes_eq (codes "mysql") t || bytes_eq (codes "postgres") t || bytes_eq (codes "sqlite3") t

module _ {E T A : Type 0} (out : Outside E T A) where
  -- `checkValid`.
  unfoldable pub check_valid : DatabaseConfig → Check E DatabaseConfig
  unfolding is_allowed
  check_valid config = do
    fail_if (not (is_allowed config.type_name)) (
        codes "database type "
        ++ (config.type_name
            ++ (codes " is not allowed, support database is [mysql postgres sqlite3], "
                ++ codes "please check the configuration file")))
    idle ←
        attempt (codes "invalid json field connect_idel_timeout")
          (out.parse_duration config.connect_idle_timeout)
    query ←
        attempt (codes "invalid json field query_timeout") (out.parse_duration config.query_timeout)
    pure (record config {
      db_type = config.type_name;
      connect_idle_duration = idle;
      query_duration = query;
    })

-- The drivers of gorm, each opened with its text.
pub data Dialector : Type 0 where
  mysql_open postgres_open sqlite_open : Bytes → Dialector

-- The text for MySQL.
unfoldable pub my_sql_connection : DatabaseConfig → Dialector
unfolding show_int
my_sql_connection db = mysql_open (
    db.username
    ++ (codes ":"
        ++ (db.password
            ++ (codes "@tcp("
                ++ (db.host
                    ++ (codes ":"
                        ++ (show_int db.port
                            ++ (codes ")/"
                                ++ (db.database
                                    ++ (codes "?charset=utf8mb4&parseTime=True&tls="
                                        ++ (if db.enable_ssl
                                            then codes "true"
                                            else codes "false")))))))))))

unfoldable pub postgre_sql_connection : DatabaseConfig → Dialector
unfolding show_int
postgre_sql_connection db = postgres_open (
    codes "host="
    ++ (db.host
        ++ (codes " user="
            ++ (db.username
                ++ (codes " password="
                    ++ (db.password
                        ++ (codes " dbname="
                            ++ (db.database
                                ++ (codes " port="
                                    ++ (show_int db.port
                                        ++ (codes " sslmode="
                                            ++ ((if db.enable_ssl
                                                  then codes "enable"
                                                  else codes "disable")
                                                ++ codes " TimeZone=Asia/Shanghai"))))))))))))

unfoldable pub sqlite_connection : DatabaseConfig → Dialector
sqlite_connection db = sqlite_open db.database

-- `GetConnection`, by the type that the check has set.
unfoldable pub get_connection : DatabaseConfig → Option Dialector
unfolding my_sql_connection postgre_sql_connection sqlite_connection bytes_eq
get_connection config =
    if bytes_eq config.db_type (codes "mysql")
    then some (my_sql_connection config)
    else if bytes_eq config.db_type (codes "postgres")
    then some (postgre_sql_connection config)
    else if bytes_eq config.db_type (codes "sqlite3")
    then some (sqlite_connection config)
    else none
