-- ===== src/Cmd/Server.antt =====
-- cmd/tradingview-mcp/main.go: loadConfig, the registration of the tools and the handler of a call.
-- os.ReadFile, os.Getenv, encoding/json, strconv.ParseBool and the server of mcp-go are arguments.
use tradingview_go.Common.{
  Bool, false, not, Option, none, some, List, [], ◌∷◌, ◌++◌, if◌then◌else◌, ◌⊎◌, inl, inr, ℤ, pos,
  ltb_ℤ,
}
use tradingview_go.Text.{Bytes, codes, beq}
use tradingview_go.Text.Decimal.{atoi}
use tradingview_go.Config.{Config}
use tradingview_go.Mcp.Tools.{Tool, tools}

pub record ConfigFile : Type 0 where
  pub host : Bytes
  pub auth_token : Bytes
  pub pool_size : ℤ
  pub enable_cache : Bool

-- What os.ReadFile gives: no such file, another error, or the file's bytes.
pub data FileRead : Type 0 where
  absent : FileRead
  unreadable : Bytes → FileRead
  contents : Bytes → FileRead

abbrev pub empty_file : ConfigFile
empty_file = record { host = []; auth_token = []; pool_size = pos 0; enable_cache = false }

-- json.Unmarshal, strconv.ParseBool and os.Getenv
pub record System : Type 0 where
  pub unmarshal : Bytes → Bytes ⊎ ConfigFile
  pub parse_bool : Bytes → Option Bool
  pub getenv : Bytes → Bytes

-- The three overrides of loadConfig by a variable's text.
unfoldable pub override_text : Bytes → Bytes → Bytes
override_text v old = if not (beq v []) then v else old

unfoldable pub override_size : Bytes → ℤ → ℤ
override_size v old =
    if not (beq v [])
    then elim (atoi v) [ none ↦ old | some n ↦ if ltb_ℤ (pos 0) n then n else old ]
    else old

unfoldable pub override_bool : (Bytes → Option Bool) → Bytes → Bool → Bool
override_bool parse_bool v old =
    if not (beq v []) then elim (parse_bool v) [ none ↦ old | some b ↦ b ] else old

-- loadConfig up to its overrides; an error is its text.
unfoldable pub read_config : System → FileRead → Bytes ⊎ ConfigFile
read_config sys (unreadable cause) = inl (codes "read config: " ++ cause)
read_config sys absent = inr empty_file
read_config sys (contents bytes) = elim (sys.unmarshal bytes) [
  | inl cause ↦ inl (codes "parse config: " ++ cause)
  | inr file ↦ inr file
]

-- The overrides, and the configuration that they come to.
unfoldable pub config_of : System → ConfigFile → Config
unfolding override_text override_size override_bool
config_of sys file = record {
  host = override_text (sys.getenv (codes "TRADINGVIEW_HOST")) file.host;
  auth_token = override_text (sys.getenv (codes "TRADINGVIEW_AUTH_TOKEN")) file.auth_token;
  pool_size = override_size (sys.getenv (codes "TRADINGVIEW_POOL_SIZE")) file.pool_size;
  enable_cache =
      override_bool sys.parse_bool (sys.getenv (codes "TRADINGVIEW_ENABLE_CACHE"))
        file.enable_cache;
  handshake_timeout = pos 0;
  fetch_timeout = pos 0;
  idle_conn_timeout = pos 0;
  search_timeout = pos 0;
  cache_ttls = none;
  cache_size = pos 0;
  candle_history = pos 0;
  user_agent = [];
}

unfoldable pub load_config : System → FileRead → Bytes ⊎ Config
unfolding read_config config_of
load_config sys read = elim (read_config sys read) [
  | inl text ↦ inl text
  | inr file ↦ inr (config_of sys file)
]

-- The loop of run over the tools: the names that it has registered when it ends, and its error.
unfoldable pub register :
    (Tool → Bytes ⊎ Bytes) → List Tool → List Bytes → List Bytes × Option Bytes
register schema [] registered = (registered, none)
register schema (t ∷ rest) registered = elim (schema t) [
  | inl cause ↦
      (registered, some (codes "marshal schema for " ++ (t.name ++ (codes ": " ++ cause))))
  | inr raw ↦ register schema rest (registered ++ t.name ∷ [])
]

-- run: its error, and the tools that the server knew when it served. `serve` is ServeStdio.
unfoldable pub run :
    System → FileRead → (Tool → Bytes ⊎ Bytes) → (List Bytes → Option Bytes) → Option Bytes
unfolding load_config register tools
run sys read schema serve = elim (load_config sys read) [
  | inl text ↦ some text
  | inr cfg ↦
      let (registered, failed) = register schema tools [] in
      elim failed [ some text ↦ some text | none ↦ serve registered ]
]

-- What the handler of a call answers with.
pub data CallResult : Type 0 where
  result_error result_text : Bytes → CallResult

-- The handler of a call over the marshalled arguments; Invoke gives a value or the text of its error.
unfoldable pub call_tool :
    {A : Type 0} → Bytes ⊎ Bytes → (Bytes → Bytes ⊎ A) → (A → Bytes ⊎ Bytes) → CallResult
call_tool (inl cause) invoke marshal = result_error cause
call_tool (inr raw) invoke marshal = elim (invoke raw) [
  | inl cause ↦ result_error cause
  | inr value ↦ elim (marshal value) [ inl cause ↦ result_error cause | inr out ↦ result_text out ]
]
