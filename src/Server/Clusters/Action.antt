-- ===== src/Server/Clusters/Action.antt =====
-- The actions that server/clusters adds to the client: the URL template of each, the parameters
-- that the template and the query string take, and its HTTP method. `needBody` is false where it is
-- left out.
use wazuh_dashboard_security.Base.{String, Bool, List}

-- The HTTP methods of routes and of actions.
pub data Method : Type 0 where
  get post put delete : Method

pub data ParameterType : Type 0 where
  string_type number_type boolean_type list_type : ParameterType

pub record UrlParameter : Type 0 where
  pub name : String
  pub kind : ParameterType
  pub required : Bool

pub record ClientAction : Type 0 where
  pub name : String
  pub fmt : String
  pub req : List UrlParameter
  pub params : List UrlParameter
  pub need_body : Bool
  pub verb : Method

abbrev pub parameter : String → ParameterType → Bool → UrlParameter
parameter name kind required = record { name = name; kind = kind; required = required }
