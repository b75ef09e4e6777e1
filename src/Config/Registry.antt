-- ===== src/Config/Registry.antt =====
-- internal/providerdef/registry.go: the part of the descriptors that the configuration's checks
-- read. `build` starts an adapter with the protocol "chat", and then names other protocols for some.
use clash_of_tokens.Base.{
  String, Bool, true, false, not, List, [], ◌∷◌, Option, none, some, if◌then◌else◌, ◌==◌, contains,
}

pub record Descriptor : Type 0 where
  pub protocols : List String
  pub text_only : Bool
  pub tools_allowed : Bool

-- The adapters that are added with textOnly false.
abbrev pub full_adapters : List String
full_adapters =
    "openai" ∷ "anthropic" ∷ "gemini" ∷ "copilot" ∷ "codex" ∷ "claude-code" ∷ "gemini-cli"
    ∷ "qwen-code" ∷ "kimi-code" ∷ "freebuff" ∷ "codebuddy-cn" ∷ "kiro" ∷ "antigravity" ∷ []

-- Those that are added with textOnly true.
abbrev pub text_adapters : List String
text_adapters =
    "chatgpt-web" ∷ "app-device" ∷ "cloudflare-playground" ∷ "tencent-ima" ∷ "weread-ai"
    ∷ "tencent-aistudio-web" ∷ "flowith" ∷ "langfast" ∷ "liaobots" ∷ "zed-hosted" ∷ "minimax-web"
    ∷ "mimo" ∷ "stepchat" ∷ "amazon-q" ∷ "augment" ∷ "devin-cli" ∷ "cursor" ∷ "windsurf" ∷ "trae"
    ∷ "v0-web" ∷ "warp" ∷ "zcode" ∷ "qoder" ∷ "gemini-business" ∷ "aistudio-playground"
    ∷ "aistudio-build" ∷ "copilot-m365" ∷ "promptql" ∷ "maxai" ∷ "notion-web" ∷ "opera-aria"
    ∷ "google-ai-mode" ∷ "emohaa" ∷ "spark-web" ∷ "qwen-web-cn" ∷ "metaso" ∷ "dola-web" ∷ "yuanbao"
    ∷ "deepseek-web" ∷ "doubao" ∷ "kimi-web" ∷ "qwen-web-intl" ∷ "glm-web" ∷ "zai-web" ∷ "tabbit"
    ∷ "fanzha" ∷ "chataigpt" ∷ "chatgptfree" ∷ "venice-web" ∷ "inkeep" ∷ "gptanon"
    ∷ "perfectassistant" ∷ "aifreeforever" ∷ "toolbaz" ∷ "phindai" ∷ "whiterabbitneo" ∷ "claude-web"
    ∷ "grok-web" ∷ "grok-console" ∷ "grok-build" ∷ "genspark" ∷ "zenmux-web" ∷ "blackbox"
    ∷ "conol-web" ∷ "adapta-web" ∷ "pi" ∷ "reka-web" ∷ "huggingchat" ∷ "hyperagent" ∷ "inner-ai"
    ∷ "uc-web" ∷ "easemate" ∷ "gemini-web" ∷ "gigachat-web" ∷ "copilot-web" ∷ "perplexity-web"
    ∷ "t3-web" ∷ "you" ∷ "poe-web" ∷ "meta-ai" ∷ "arena" ∷ "tinycms-web" ∷ "merlin" ∷ "sider"
    ∷ "monica" ∷ "raycast" ∷ "duckduckgo-web" ∷ []

-- The table `protocols` of build.
unfoldable pub protocols_of : String → List String
protocols_of id =
    if contains ("openai" ∷ "chatgpt-web" ∷ "grok-console" ∷ "grok-build" ∷ []) id
    then "chat" ∷ "responses" ∷ []
    else if contains ("anthropic" ∷ "claude-code" ∷ []) id
    then "messages" ∷ []
    else if contains ("gemini" ∷ "gemini-cli" ∷ "antigravity" ∷ []) id
    then "gemini" ∷ []
    else if id == "copilot"
    then "chat" ∷ "responses" ∷ "messages" ∷ []
    else if id == "codex"
    then "responses" ∷ []
    else if contains ("kiro" ∷ "kimi-code" ∷ []) id
    then "chat" ∷ "messages" ∷ []
    else "chat" ∷ []

-- Lookup, for an id in the registry that `build` makes.
unfoldable pub lookup_descriptor : String → Option Descriptor
unfolding protocols_of
lookup_descriptor id =
    if contains full_adapters id
    then some (record {
      protocols = protocols_of id;
      text_only = false;
      tools_allowed = not (id == "kiro");
    })
    else if contains text_adapters id
    then some (record { protocols = protocols_of id; text_only = true; tools_allowed = false })
    else none

unfoldable pub supports : String → String → Bool
unfolding lookup_descriptor
supports id protocol = elim (lookup_descriptor id) [
  | none ↦ false
  | some d ↦ contains d.protocols protocol
]
