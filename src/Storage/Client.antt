-- ===== src/Storage/Client.antt =====
-- The interface `StoreClient` of kubernetes/storage/store-client/interface.go, and its
-- implementation by remote calls in kubernetes/storage/store-client/s3/s3-client/client.go.
-- `net/rpc` is a parameter.
use boxroom_cloud_native.Base.{String, Bool, false, List, []}
use boxroom_cloud_native.Base.Action.{Act, return, ◌>>=◌}
use boxroom_cloud_native.Util.System.{Os}

pub record StoreClient {W : Type 0} (os : Os W) : Type 0 where
  pub list_bucket : Act W (List String)
  pub list_objects : String → Act W (List String)
  pub list_common_prefix : String → String → Act W (List String)
  pub create_bucket : String → Act W (Unit {0})
  -- The result stands for an `io.Reader`: the call that reads it to its end.
  pub get_object : String → Act W (Act W String)
  pub upload_object : String → os.File → Act W (Unit {0})
  pub storage_plugin_health_check : Act W (Unit {0})

pub record ListBucketInput : Type 0 where

pub record ListObjectsInput : Type 0 where
  pub prefix : String

pub record ListCommonPrefixInput : Type 0 where
  pub prefix : String
  pub delimiter : String

pub record CreateBucketInput : Type 0 where
  pub bucket_name : String

pub record GetObjectInput : Type 0 where
  pub key : String

pub record UploadObjectInput : Type 0 where
  pub file_name : String
  pub body : String

pub record StoragePluginHealthCheckInput : Type 0 where
  pub check_methods : String

pub record ListBucketOutput : Type 0 where
  pub buckets : List String

pub record ListObjectsOutput : Type 0 where
  pub objects : List String

pub record ListCommonPrefixOutput : Type 0 where
  pub tree_name : List String

pub record CreateBucketOutput : Type 0 where
  pub create_bucket_status : Bool

pub record GetObjectOutput : Type 0 where
  pub file : String

pub record UploadObjectOutput : Type 0 where
  pub upload_object_status : Bool

pub record StoragePluginHealthCheckOutput : Type 0 where
  pub health_status : Bool

-- `rpc.Client`: the result is what the call leaves in its output.
pub record RpcClient (W : Type 0) : Type 1 where
  pub call : {I O : Type 0} → String → I → O → Act W O

module _ {W : Type 0} (os : Os W) (rpc : RpcClient W) where
  abbrev no_output : ListBucketOutput
  no_output = record { buckets = [] }

  unfoldable pub list_bucket : Act W (List String)
  list_bucket = do
    let input : ListBucketInput = record {}
    output ← rpc.call "S3Client.ListBucket" input no_output
    return output.buckets

  unfoldable pub list_objects : String → Act W (List String)
  list_objects prefix = do
    let input : ListObjectsInput = record { prefix = prefix }
    let empty : ListObjectsOutput = record { objects = [] }
    output ← rpc.call "S3Client.ListObjects" input empty
    return output.objects

  unfoldable pub list_common_prefix : String → String → Act W (List String)
  list_common_prefix prefix delimiter = do
    let input : ListCommonPrefixInput = record { prefix = prefix; delimiter = delimiter }
    let empty : ListCommonPrefixOutput = record { tree_name = [] }
    output ← rpc.call "S3Client.ListCommonPrefix" input empty
    return output.tree_name

  unfoldable pub create_bucket : String → Act W (Unit {0})
  create_bucket bucket_name = do
    let input : CreateBucketInput = record { bucket_name = bucket_name }
    let empty : CreateBucketOutput = record { create_bucket_status = false }
    output ← rpc.call "S3Client.CreateBucket" input empty
    return tt

  unfoldable pub get_object : String → Act W (Act W String)
  get_object key = do
    let input : GetObjectInput = record { key = key }
    let empty : GetObjectOutput = record { file = "" }
    output ← rpc.call "S3Client.GetObject" input empty
    return (return output.file)

  unfoldable pub upload_object : String → os.File → Act W (Unit {0})
  upload_object file_name body = do
    buffer ← os.read_all body
    let input : UploadObjectInput = record { file_name = file_name; body = buffer }
    let empty : UploadObjectOutput = record { upload_object_status = false }
    output ← rpc.call "S3Client.UploadObject" input empty
    return tt

  unfoldable pub storage_plugin_health_check : Act W (Unit {0})
  storage_plugin_health_check = do
    let input : StoragePluginHealthCheckInput = record { check_methods = "ListBucket" }
    let empty : StoragePluginHealthCheckOutput = record { health_status = false }
    output ← rpc.call "S3Client.StoragePluginHealthCheck" input empty
    return tt

  -- `BoxroomStoreClient` as a `StoreClient`
  abbrev pub boxroom_store_client : StoreClient os
  boxroom_store_client = record {
    list_bucket = list_bucket;
    list_objects = list_objects;
    list_common_prefix = list_common_prefix;
    create_bucket = create_bucket;
    get_object = get_object;
    upload_object = upload_object;
    storage_plugin_health_check = storage_plugin_health_check;
  }
