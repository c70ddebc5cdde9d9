-- ===== src/Llm.antt =====
-- The client of a chat completions endpoint (brain/src/coroner_brain/llm.py). The endpoint is a
-- parameter.
use coroner.Base.{ℕ, ◌+◌, String, Option, none, some, or_else}
use coroner.Graph.State.{Usage}

-- What the endpoint answers: the content, and the counts of tokens, each if there is one.
pub record Completion : Type 0 where
  pub content : Option String
  pub prompt_tokens : Option ℕ
  pub completion_tokens : Option ℕ

pub record CompletionClient : Type 0 where
  pub model_id : String
  pub last_usage : Usage

-- `Usage.__add__`
unfoldable pub add_usage : Usage → Usage → Usage
add_usage a b = record {
  prompt_tokens = a.prompt_tokens + b.prompt_tokens;
  completion_tokens = a.completion_tokens + b.completion_tokens;
}

-- the answer and the client once a completion has come back; one that raises leaves the client
abbrev answered : Completion → CompletionClient → String × CompletionClient
answered c client = (
  or_else c.content "",
  record client {
    last_usage = record {
      prompt_tokens = or_else c.prompt_tokens 0;
      completion_tokens = or_else c.completion_tokens 0;
    };
  },
)

-- `complete_json`, over what the endpoint makes of a model, a system and a user message, with the
-- schema of a diagnosis; `none` is raised
module _ (create : String → String → String → Option Completion) where
  abbrev on_completion : Option Completion → CompletionClient → Option String × CompletionClient
  on_completion none client = (none, client)
  on_completion (some c) client = let (content, after) = answered c client in (some content, after)

  unfoldable pub complete_json :
      String → String → CompletionClient → Option String × CompletionClient
  complete_json system user client = on_completion (create client.model_id system user) client
