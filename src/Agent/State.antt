-- ===== src/Agent/State.antt =====
-- `IncidentGraphState` of agent_workflow/graph.py, which the evaluator reads too. Every key may be missing.
-- `retrieved_action_provenance` is `none` as well where its value is not a list, the items of which may be
-- anything.
use hermes_enterprise_deploy.Base.{String, List, [], Option, none, some}
use hermes_enterprise_deploy.Json.{Json, str, Fields}
use hermes_enterprise_deploy.Agent.Retrieval.{RunbookDocument}

pub record IncidentGraphState : Type 0 where
  pub incident_id : Option String
  pub question : Option String
  pub retrieved_documents : Option (List RunbookDocument)
  pub retrieved_document_ids : Option (List String)
  pub retrieved_action_provenance : Option (List Json)
  pub actions : Option (List Fields)
  pub consequential_action_ids : Option (List String)
  pub citations : Option (List String)
  pub executed_actions : Option (List String)
  pub status : Option String
  pub node_trace : List String

-- `state.get(key, [])`
abbrev pub or_empty : {A : Type 0} → Option (List A) → List A
or_empty none = []
or_empty (some xs) = xs

-- `str(value)`, where `show` is that of a value that is no text
abbrev pub python_str : (Json → String) → Json → String
python_str show (str s) = s
python_str show j = show j
