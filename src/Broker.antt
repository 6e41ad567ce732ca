-- ===== src/Broker.antt =====
-- externals/msgbroker/msgbroker_localstack.go: topics and queues on LocalStack's SNS and SQS.
pub mod Dict
pub mod Aws
pub mod Service
pub mod Local
pub mod Topics
pub mod Poller
pub mod Lifecycle
